-- ===== src/Koth/Thresholds.antt =====
-- What a rank means: services/koth/internal/api/domain/rank.go over validated thresholds.
use full.Base.{ℕ, ◌+◌, ◌≤◌, ◌<◌, ◌≡◌, true, List, [], ◌∷◌, arith, length, if◌then◌else◌}
use full.Base.Int.{ℤ, pos, ◌≤ℤ◌, ◌<ℤ◌, leb_ℤ}
use full.Koth.Rank.{compute_rank, next_target_ms, thresholds_ascending}

-- How many of all thresholds a hold reaches, in any order.
abbrev pub reached : ℤ → List ℤ → ℕ
reached held [] = 0
reached held (t ∷ ts) = (if leb_ℤ t held then 1 else 0) + reached held ts

reached-zero :
    (held t : ℤ) (ts : List ℤ)
    → thresholds_ascending (t ∷ ts) ≡ true
    → held <ℤ t
    → reached held ts ≡ 0
unfolding thresholds_ascending
reached-zero held t [] a h = omega arith
reached-zero held t (u ∷ ts) a h = ground (arith, reached-zero held u ts)

ascending-tail :
    (t : ℤ) (ts : List ℤ) → thresholds_ascending (t ∷ ts) ≡ true → thresholds_ascending ts ≡ true
unfolding thresholds_ascending
ascending-tail t [] a = ground arith
ascending-tail t (u ∷ ts) a = ground arith

-- Over the ascending thresholds that the config check admits, the rank is the number of all
-- thresholds that the hold reaches, although the loop stops at the first one out of reach.
pub compute_rank-reached :
    (held : ℤ) (ts : List ℤ)
    → thresholds_ascending ts ≡ true
    → compute_rank held ts ≡ reached held ts
unfolding compute_rank
compute_rank-reached held [] a = omega arith
compute_rank-reached held (t ∷ ts) a =
    ground (arith, compute_rank-reached held ts (ascending-tail t ts a), reached-zero held t ts a)

-- The next target of a rank just computed is out of reach, unless the rank is the highest; there
-- the target is 0.
pub next_target-compute_rank :
    (held : ℤ) (ts : List ℤ)
    → (compute_rank held ts ≤ length ts)
      × (compute_rank held ts < length ts → held <ℤ next_target_ms (compute_rank held ts) ts)
      × (compute_rank held ts ≡ length ts → next_target_ms (compute_rank held ts) ts ≡ pos 0)
unfolding compute_rank next_target_ms
next_target-compute_rank held [] = ground arith
next_target-compute_rank held (t ∷ ts) = ground (arith, next_target-compute_rank held ts)

-- A longer hold never has a lower rank.
pub compute_rank_mono : (a b : ℤ) (ts : List ℤ) → a ≤ℤ b → compute_rank a ts ≤ compute_rank b ts
unfolding compute_rank
compute_rank_mono a b [] h = omega arith
compute_rank_mono a b (t ∷ ts) h = ground (arith, compute_rank_mono a b ts)
