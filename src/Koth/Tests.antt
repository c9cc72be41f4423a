-- ===== src/Koth/Tests.antt =====
-- Concrete inputs for services/koth.
use full.Base.{◌≡◌, ◌≤◌, refl, ◌⊎◌, true, none, some, List, [], ◌∷◌, arith, nat_eq, string_eq}
use full.Base.Int.{ℤ, pos, ◌≤ℤ◌}
use full.Base.Db.{
  Conn, ok, err, raised, answered, refused, lost, transaction, statement, pure, ◌>>=◌,
}
use full.Base.Db.Laws.{AtomicAt}
use full.Koth.Clock.{daily, monthly, Time, before}
use full.Koth.Hill
use full.Koth.Hill.{
  KingReign, Tables, ChallengeOutcome, hill_not_found, current, same_hill, new_reign,
  close_if_stale, close_if_stale_tx, lock_hill, close_reign,
}
use full.Koth.Crown.{IsValid}
use full.Koth.Challenge.{challenge_effect, challenge-AtomicAt}
use full.Koth.Throne.{Challenger, challenge_all, AreAnswered, IsOf, challenge_all-king}
use full.Koth.Reset.{Leaves, close_if_stale-closed}
use full.Koth.Attempts
use full.Koth.Attempts.{HillRank, submit_attempt}
use full.Koth.Standings.{Answers, submit_attempt-Answers}

abbrev new_year : Time
new_year = record { year = 2025; month = 1; day = 1; nanos = 5 }

abbrev may : Time
may = record { year = 2025; month = 5; day = 17; nanos = 3600 }

abbrev king : KingReign
king = record {
  id = 1;
  hill_type = daily;
  user_id = 4;
  clip_id = "clip";
  blink_ts_ms = pos 9000;
  started_at = new_year;
  ended_at = none;
}

abbrev hill : Tables
hill = record { reigns = king ∷ []; next_id = 2; now = may }

hill-IsValid : IsValid hill
hill-IsValid = record {
  below = ground arith;
  keyed = ground arith;
  single = λ h. elim h as (λ x. full.Koth.Crown.currents x (king ∷ []) ≤ 1) [
    | daily ↦ ground arith
    | monthly ↦ ground arith
  ];
}

-- The insert is refused.
abbrev shaky : Conn Tables
shaky = record { tables = hill; fates = answered ∷ answered ∷ answered ∷ answered ∷ refused ∷ [] }

abbrev calm : Conn Tables
calm = record { tables = hill; fates = [] }

reigning : current daily hill.reigns ≡ some king
unfolding current
reigning = refl

abbrev ladder : List ℤ
ladder = pos 5000 ∷ pos 10000 ∷ pos 20000 ∷ []

challenge-AtomicAt_example :
    AtomicAt
      (challenge_effect daily 8 (pos 9500) "c2")
      shaky
      (Hill.challenge daily 8 (pos 9500) "c2" shaky)
challenge-AtomicAt_example = challenge-AtomicAt daily 8 (pos 9500) "c2" shaky hill-IsValid

-- Two challengers, of whom the first beats the king unless the insert is refused.
abbrev challengers : List Challenger
challengers = (8, pos 9500, "c2") ∷ (9, pos 8000, "c3") ∷ []

challenge_all-king_example :
    (next : KingReign) × (current daily (challenge_all daily challengers shaky).tables.reigns
      ≡ some next)
    × (pos 9000 ≤ℤ next.blink_ts_ms)
    × AreAnswered daily next.blink_ts_ms challengers shaky
    × ((next ≡ king) ⊎ IsOf next challengers)
challenge_all-king_example = challenge_all-king daily challengers shaky king hill-IsValid reigning

stale-closed : (close_if_stale daily may calm).0 ≡ ok (some king)
unfolding current before close_if_stale close_if_stale_tx lock_hill close_reign transaction
    statement ◌>>=◌ pure
stale-closed = refl

close_if_stale-closed_example :
    let d = (close_if_stale daily may calm).1 in
    (current daily hill.reigns ≡ some king)
    × (before king.started_at may ≡ true)
    × (current daily d.tables.reigns ≡ none)
    × ((same_hill daily monthly ≡ true)
        ⊎ (current monthly d.tables.reigns ≡ current monthly hill.reigns))
    × Leaves (ok none) d.tables (close_if_stale daily may d)
    × Leaves (err (raised hill_not_found)) d.tables (Hill.challenge daily 8 (pos 9500) "c2" d)
close_if_stale-closed_example =
    close_if_stale-closed daily may calm king 8 (pos 9500) "c2" monthly hill-IsValid stale-closed

abbrev ranked : Attempts.World
ranked = record {
  conn = record {
    tables = record { user_id = 8; day = may; rank = 1; best_hold_ms = pos 6000 } ∷ [];
    fates = answered ∷ lost ∷ [];
  };
  credits = [];
}

submit_attempt-Answers_example :
    let out = submit_attempt (pos 5) ladder 8 (pos 12000) may ranked in
    Answers (pos 5) ladder 8 (pos 12000) may ranked out.0 out.1
submit_attempt-Answers_example = submit_attempt-Answers (pos 5) ladder 8 (pos 12000) may ranked
