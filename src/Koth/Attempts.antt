-- ===== src/Koth/Attempts.antt =====
-- services/koth/internal/api/repository/rank_repository.go and service/rank_service.go: attempts
-- at the ranked hill, over the table `hill_ranks`. A day is the date of a time.
use full.Base.{
  ℕ, ◌+◌, Bool, true, false, ◌&&◌, Option, none, some, List, [], ◌∷◌, ◌++◌, ltb, ◌==◌, nat_eq,
  if◌then◌else◌,
}
use full.Base.Int.{ℤ, pos, leb_ℤ}
use full.Base.Db.{Db, Conn, Result, ok, err, unavailable, raised, pure, raise, statement, ◌>>=◌}
use full.Base.Text.{◌+++◌, format_int}
use full.Koth.Clock.{Time, format_day}
use full.Koth.Rank.{compute_rank, next_target_ms}
use full.Koth.Credits.{CreditRequest}

-- domain.HillRank; `day` stands for its date.
pub record HillRank : Type 0 where
  pub user_id : ℕ
  pub day : Time
  pub rank : ℕ
  pub best_hold_ms : ℤ

-- domain.RankCount
pub record RankCount : Type 0 where
  pub rank : ℕ
  pub count : ℕ

-- ErrRankNotFound
pub data RankFault : Type 0 where
  rank_not_found : RankFault

abbrev pub same_day : Time → Time → Bool
same_day t u = t.year == u.year && t.month == u.month && t.day == u.day

abbrev pub is_row : ℕ → Time → HillRank → Bool
is_row user_id day r = r.user_id == user_id && same_day r.day day

unfoldable pub find_rank : ℕ → Time → List HillRank → Option HillRank
find_rank user_id day [] = none
find_rank user_id day (r ∷ rs) = if is_row user_id day r then some r else find_rank user_id day rs

abbrev pub or_rank_not_found : Option HillRank → Db RankFault (List HillRank) HillRank
or_rank_not_found none = raise rank_not_found
or_rank_not_found (some r) = pure r

-- GetRank
unfoldable pub get_rank : ℕ → Time → Db RankFault (List HillRank) HillRank
get_rank user_id day = do
  found ← statement (λ t. (find_rank user_id day t, t))
  or_rank_not_found found

-- The row after DO UPDATE … WHERE EXCLUDED.current_rank > hill_ranks.current_rank.
abbrev pub raised_row : ℕ → ℤ → HillRank → HillRank
raised_row new_rank best_hold_ms r =
    if ltb r.rank new_rank then record r { rank = new_rank; best_hold_ms = best_hold_ms } else r

unfoldable pub upsert_row : ℕ → Time → ℕ → ℤ → List HillRank → List HillRank
upsert_row user_id day new_rank best_hold_ms [] =
    record { user_id = user_id; day = day; rank = new_rank; best_hold_ms = best_hold_ms } ∷ []
upsert_row user_id day new_rank best_hold_ms (r ∷ rs) =
    let rest = upsert_row user_id day new_rank best_hold_ms rs in
    if is_row user_id day r then raised_row new_rank best_hold_ms r ∷ rs else r ∷ rest

-- UpsertRank
unfoldable pub upsert_rank : ℕ → Time → ℕ → ℤ → Db RankFault (List HillRank) (Unit {0})
upsert_rank user_id day new_rank best_hold_ms =
    statement λ t. (tt, upsert_row user_id day new_rank best_hold_ms t)

-- The counts of RankDistribution, kept ascending by rank.
unfoldable pub count_rank : ℕ → List RankCount → List RankCount
count_rank rank [] = record { rank = rank; count = 1 } ∷ []
count_rank rank (c ∷ cs) =
    let rest = count_rank rank cs in
    if c.rank == rank
    then record c { count = c.count + 1 } ∷ cs
    else if ltb rank c.rank
    then record { rank = rank; count = 1 } ∷ c ∷ cs
    else c ∷ rest

unfoldable pub distribution : Time → List HillRank → List RankCount
distribution day [] = []
distribution day (r ∷ rs) =
    let counts = distribution day rs in
    if same_day r.day day then count_rank r.rank counts else counts

unfoldable pub rank_distribution : Time → Db RankFault (List HillRank) (List RankCount)
rank_distribution day = statement λ t. (distribution day t, t)

-- domain.AttemptResult and domain.MeResult
pub record AttemptResult : Type 0 where
  pub achieved_rank : ℕ
  pub current_rank : ℕ
  pub newly_reached : Bool

pub record MeResult : Type 0 where
  pub current_rank : ℕ
  pub next_target_ms : ℤ

-- ErrInvalidHoldMs
pub data Fault : Type 0 where
  invalid_hold_ms : Fault

pub record World : Type 0 where
  pub conn : Conn (List HillRank)
  pub credits : List CreditRequest

-- creditRankUp
unfoldable pub credit_rank_up : ℤ → ℕ → Time → ℕ → CreditRequest
credit_rank_up rank_amount user_id day achieved = record {
  user_id = user_id;
  reason = "koth_rank";
  ref_id = format_day day +++ ":" +++ format_int achieved;
  delta = rank_amount;
}

-- The current rank from GetRank: a missing row is rank 0, any other error ends the call.
abbrev pub rank_or_error : Result RankFault HillRank → Result Fault ℕ
rank_or_error (ok r) = ok r.rank
rank_or_error (err (raised rank_not_found)) = ok 0
rank_or_error (err unavailable) = err unavailable

module _ (rank_amount : ℤ) (user_id : ℕ) (day : Time) (held_ms : ℤ) (achieved : ℕ) where
  abbrev pub recorded :
      List CreditRequest
      → Result RankFault (Unit {0}) × Conn (List HillRank)
      → Result Fault AttemptResult × World
  recorded credits (err e, c) = (err unavailable, record { conn = c; credits = credits })
  recorded credits (ok _, c) = (
    ok (record { achieved_rank = achieved; current_rank = achieved; newly_reached = true }),
    record { conn = c; credits = credits ++ credit_rank_up rank_amount user_id day achieved ∷ [] },
  )

  abbrev pub compared :
      List CreditRequest
      → Result Fault ℕ × Conn (List HillRank)
      → Result Fault AttemptResult × World
  compared credits (err e, c) = (err e, record { conn = c; credits = credits })
  compared credits (ok current, c) =
      if ltb current achieved
      then recorded credits (upsert_rank user_id day achieved held_ms c)
      else (
        ok (record { achieved_rank = achieved; current_rank = current; newly_reached = false }),
        record { conn = c; credits = credits },
      )

-- rankService.SubmitAttempt; `day` is what the clock shows.
unfoldable pub submit_attempt :
    ℤ → List ℤ → ℕ → ℤ → Time → World → Result Fault AttemptResult × World
submit_attempt rank_amount thresholds user_id held_ms day w =
    let achieved = compute_rank held_ms thresholds in
    let (found, c) = get_rank user_id day w.conn in
    if leb_ℤ held_ms (pos 0)
    then (err (raised invalid_hold_ms), w)
    else compared rank_amount user_id day held_ms achieved w.credits (rank_or_error found, c)

abbrev standing : List ℤ → Result Fault ℕ → Result Fault MeResult
standing thresholds (err e) = err e
standing thresholds (ok current) =
    ok (record { current_rank = current; next_target_ms = next_target_ms current thresholds })

-- rankService.Me
unfoldable pub me :
    List ℤ → ℕ → Time → Conn (List HillRank) → Result Fault MeResult × Conn (List HillRank)
me thresholds user_id day c =
    let (found, d) = get_rank user_id day c in (standing thresholds (rank_or_error found), d)
