-- ===== src/Koth/Rank.antt =====
-- services/koth/internal/api/domain/rank.go, and the threshold check of
-- internal/config/validate.go.
use full.Base.{ℕ, suc, Bool, true, false, List, [], ◌∷◌, if◌then◌else◌}
use full.Base.Int.{ℤ, pos, leb_ℤ}

-- The loop of ComputeRank: the first threshold out of reach ends it.
unfoldable pub compute_rank : ℤ → List ℤ → ℕ
compute_rank held_ms [] = 0
compute_rank held_ms (threshold ∷ thresholds) =
    let rest = suc (compute_rank held_ms thresholds) in if leb_ℤ threshold held_ms then rest else 0

-- thresholds[i], 0 where i is out of range.
abbrev pub at_or_zero : List ℤ → ℕ → ℤ
at_or_zero [] i = pos 0
at_or_zero (x ∷ xs) ℕ.zero = x
at_or_zero (x ∷ xs) (suc i) = at_or_zero xs i

-- NextTargetMs; a rank is a count, so it is never negative.
unfoldable pub next_target_ms : ℕ → List ℤ → ℤ
next_target_ms current_rank thresholds = at_or_zero thresholds current_rank

-- validateThresholdsAscending
unfoldable pub thresholds_ascending : List ℤ → Bool
thresholds_ascending [] = true
thresholds_ascending (x ∷ []) = true
thresholds_ascending (x ∷ y ∷ rest) =
    let more = thresholds_ascending (y ∷ rest) in if leb_ℤ y x then false else more
