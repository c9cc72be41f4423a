-- ===== src/Koth/Standings.antt =====
-- What attempts do to the standings: services/koth/internal/api/service/rank_service.go and
-- repository/rank_repository.go.
use full.Base.{
  ℕ, ◌≤◌, ◌<◌, ◌≡◌, ◌⊎◌, Option, none, some, List, [], ◌∷◌, ◌++◌, arith, ltb, nat_eq, if◌then◌else◌,
}
use full.Base.Int.{ℤ, pos, ◌<ℤ◌}
use full.Base.Db.{Result, ok, err, pure, raise, statement, ◌>>=◌}
use full.Koth.Clock.{Time}
use full.Koth.Rank.{compute_rank}
use full.Koth.Credits.{CreditRequest}
use full.Koth.Attempts.{
  HillRank, find_rank, get_rank, upsert_row, upsert_rank, AttemptResult, Fault, World,
  credit_rank_up, submit_attempt,
}

-- A user's rank on a day, 0 without a row.
abbrev rank_or_zero : Option HillRank → ℕ
rank_or_zero none = 0
rank_or_zero (some r) = r.rank

abbrev pub rank_on : List HillRank → ℕ → Time → ℕ
rank_on t user_id day = rank_or_zero (find_rank user_id day t)

rank_on-upsert_row :
    (u : ℕ) (d : Time) (n : ℕ) (ms : ℤ) (t : List HillRank) (v : ℕ) (e : Time)
    → rank_on t v e ≤ rank_on (upsert_row u d n ms t) v e
unfolding find_rank upsert_row
rank_on-upsert_row u d n ms [] v e = ground arith
rank_on-upsert_row u d n ms (r ∷ rs) v e = ground (arith, rank_on-upsert_row u d n ms rs v e)

-- The row of the user and the day takes a higher rank.
rank_on-upsert_row_own :
    (u : ℕ) (d : Time) (n : ℕ) (ms : ℤ) (t : List HillRank)
    → rank_on t u d < n
    → rank_on (upsert_row u d n ms t) u d ≡ n
unfolding find_rank upsert_row
rank_on-upsert_row_own u d n ms [] h = ground arith
rank_on-upsert_row_own u d n ms (r ∷ rs) h = ground (arith, rank_on-upsert_row_own u d n ms rs)

module _ (amount : ℤ) (thresholds : List ℤ) (user_id : ℕ) (held_ms : ℤ) (day : Time)
    (w : World) where
  abbrev pub attempted : Result Fault AttemptResult × World
  attempted = submit_attempt amount thresholds user_id held_ms day w

  abbrev pub rank_before : ℕ
  rank_before = rank_on w.conn.tables user_id day

  -- Whatever the connection does, an attempt lowers nobody's rank on any day.
  pub submit_attempt-rank_on :
      (v : ℕ) (e : Time) → rank_on w.conn.tables v e ≤ rank_on attempted.1.conn.tables v e
  unfolding submit_attempt get_rank upsert_rank statement pure raise ◌>>=◌
  submit_attempt-rank_on v e = ground (
    arith,
    rank_on-upsert_row user_id day (compute_rank held_ms thresholds) held_ms w.conn.tables v e,
  )

  abbrev rewarded : AttemptResult → List CreditRequest
  rewarded r =
      if r.newly_reached
      then w.credits ++ credit_rank_up amount user_id day r.achieved_rank ∷ []
      else w.credits

  -- What the answer says of the hold, of the standings before and after, and of the credits sent.
  abbrev pub Answers : Result Fault AttemptResult → World → Type 0
  Answers (ok r) after =
      (pos 0 <ℤ held_ms)
      × (r.achieved_rank ≡ compute_rank held_ms thresholds)
      × (r.newly_reached ≡ ltb rank_before r.achieved_rank)
      × (r.current_rank ≡ (if r.newly_reached then r.achieved_rank else rank_before))
      × (rank_on after.conn.tables user_id day ≡ r.current_rank)
      × (after.credits ≡ rewarded r)
  Answers (err e) after = (after.credits ≡ w.credits) × ((pos 0 <ℤ held_ms) ⊎ (after ≡ w))

  -- An attempt that answers ranks the hold by the thresholds; it reports a rank as newly reached
  -- exactly where that is above the user's rank of the day so far, and the higher of the two as
  -- the current rank, which is then the rank in the table. One credit, for the rank and the day,
  -- is sent where the rank is newly reached, and none otherwise. An attempt that fails sends none,
  -- and one whose hold is not positive fails and changes nothing.
  pub submit_attempt-Answers : Answers attempted.0 attempted.1
  unfolding submit_attempt get_rank upsert_rank statement pure raise ◌>>=◌
  submit_attempt-Answers = ground (
    arith,
    rank_on-upsert_row_own user_id day (compute_rank held_ms thresholds) held_ms w.conn.tables,
  )
