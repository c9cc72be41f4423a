-- ===== src/Koth/Throne.antt =====
-- The kings of a hill through many challenges: services/koth/internal/api/repository/
-- hill_repository.go.
use full.Base.{ℕ, ◌≡◌, refl, ◌⊎◌, inl, inr, some, List, [], ◌∷◌, String, arith}
use full.Base.Int.{ℤ, ◌≤ℤ◌}
use full.Base.Db.{Conn, Result, ok, err, unavailable, raised}
use full.Koth.Clock.{HillType}
use full.Koth.Hill.{KingReign, ChallengeOutcome, Tables, Fault, current, challenge}
use full.Koth.Crown.{IsValid}
use full.Koth.Challenge.{
  challenge_effect, challenge-AtomicAt, challenge-IsValid, challenge_effect-king,
}

-- A user, how long he survived, and his clip.
abbrev pub Challenger : Type 0
Challenger = ℕ × ℤ × String

unfoldable pub challenge_all : HillType → List Challenger → Conn Tables → Conn Tables
challenge_all h [] c = c
challenge_all h ((user_id, survived_ms, clip_id) ∷ xs) c =
    challenge_all h xs (challenge h user_id survived_ms clip_id c).1

-- An answer to a challenger who survived no longer than `best`; no error of the code's own.
abbrev pub Answered : ℤ → ℤ → Result Fault ChallengeOutcome → Type 0
Answered best survived_ms (ok outcome) = survived_ms ≤ℤ best
Answered best survived_ms (err unavailable) = Unit {0}
Answered best survived_ms (err (raised e)) = ⊥

abbrev pub AreAnswered : HillType → ℤ → List Challenger → Conn Tables → Type 0
AreAnswered h best [] c = Unit {0}
AreAnswered h best ((user_id, survived_ms, clip_id) ∷ xs) c =
    let out = challenge h user_id survived_ms clip_id c in
    Answered best survived_ms out.0 × AreAnswered h best xs out.1

-- The reign is that of one of the challengers.
abbrev pub IsOf : KingReign → List Challenger → Type 0
IsOf k [] = ⊥
IsOf k ((user_id, survived_ms, clip_id) ∷ xs) =
    ((k.user_id ≡ user_id) × (k.blink_ts_ms ≡ survived_ms) × (k.clip_id ≡ clip_id)) ⊎ IsOf k xs

module _ (h : HillType) where
  Answered-le :
      (low high survived_ms : ℤ) (r : Result Fault ChallengeOutcome)
      → low ≤ℤ high
      → Answered low survived_ms r
      → Answered high survived_ms r
  Answered-le low high s (ok o) l a = omega (arith, l, a)
  Answered-le low high s (err unavailable) l a = tt
  Answered-le low high s (err (raised e)) l a = a

  -- One challenge against a king.
  challenge-king :
      (user_id : ℕ) (survived_ms : ℤ) (clip_id : String) (c : Conn Tables) (king : KingReign)
      → IsValid c.tables
      → current h c.tables.reigns ≡ some king
      → let out = challenge h user_id survived_ms clip_id c in
        (next : KingReign) × (current h out.1.tables.reigns ≡ some next)
        × (king.blink_ts_ms ≤ℤ next.blink_ts_ms)
        × Answered next.blink_ts_ms survived_ms out.0
        × ((next ≡ king) ⊎ IsOf next ((user_id, survived_ms, clip_id) ∷ []))
  challenge-king user_id survived_ms clip_id c king v e =
      let out = challenge h user_id survived_ms clip_id c in
      let t = c.tables in
      let (next, crowned, le, which, _) =
        challenge_effect-king h user_id survived_ms clip_id t king v e in
      let who : (next ≡ king) ⊎ IsOf next ((user_id, survived_ms, clip_id) ∷ []) =
        ground (arith, which) in
      let answered : Answered next.blink_ts_ms survived_ms
          (challenge_effect h user_id survived_ms clip_id t).0 =
        ground (arith, e, which) in
      elim (challenge-AtomicAt h user_id survived_ms clip_id c v) [
        | inl (failed, _, inl same) ↦ (king, rw same e, omega arith, rw failed tt, inl refl)
        | inl (failed, _, inr after) ↦ (next, rw after crowned, le, rw failed tt, who)
        | inr (answer, after) ↦ (next, rw after crowned, le, rw answer answered, who)
      ]

  -- Challenges to a hill of a valid table that has a king, one after the other and whatever fails
  -- at each: the hill has a king at the end, who survived as long as the first at least, and as
  -- long as every challenger who was answered; he is the first king, or one of the challengers
  -- with the time and clip of the challenge; and no challenge is answered with an error of the
  -- code's own.
  pub challenge_all-king :
      (xs : List Challenger) (c : Conn Tables) (king : KingReign)
      → IsValid c.tables
      → current h c.tables.reigns ≡ some king
      → (next : KingReign) × (current h (challenge_all h xs c).tables.reigns ≡ some next)
        × (king.blink_ts_ms ≤ℤ next.blink_ts_ms)
        × AreAnswered h next.blink_ts_ms xs c
        × ((next ≡ king) ⊎ IsOf next xs)
  unfolding challenge_all
  challenge_all-king [] c king v e = (king, e, omega arith, tt, inl refl)
  challenge_all-king ((user_id, survived_ms, clip_id) ∷ xs) c king v e =
      let out = challenge h user_id survived_ms clip_id c in
      let (next, crowned, le, answered, which) =
        challenge-king user_id survived_ms clip_id c king v e in
      let (last, at_end, later, all, who) =
        challenge_all-king xs out.1 next (challenge-IsValid h user_id survived_ms clip_id c v)
          crowned in
      (
        last,
        at_end,
        omega (arith, le, later),
        (Answered-le next.blink_ts_ms last.blink_ts_ms survived_ms out.0 later answered, all),
        ground (arith, which, who),
      )
