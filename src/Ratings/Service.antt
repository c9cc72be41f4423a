-- ===== src/Ratings/Service.antt =====
-- services/ratings/internal/api/service/ratings_service.go: ApplyMatchResult and its credits.
-- A call of the points client (points_client.go, an HTTP request) is an entry of `credits`: its
-- own failure is logged and dropped, so only the calls made are kept.
use full.Base.{ℕ, List, [], ◌∷◌, ◌++◌, String, ◌==◌, nat_eq, if◌then◌else◌}
use full.Base.Db.{Conn, Result, ok, err, Error, unavailable, raised}
use full.Base.Text.{◌+++◌, format_int}
use full.Ratings.Float.{Float64}
use full.Ratings.Repository.{Tables, MatchInput, MatchResult, NoRows, apply_match_result}

pub record CreditRequest : Type 0 where
  pub user_id : ℕ
  pub reason : String
  pub ref_id : String

-- ErrSamePlayer, or the repository's error.
pub data Fault : Type 0 where
  same_player : Fault
  repository : NoRows → Fault

pub record World : Type 0 where
  pub conn : Conn Tables
  pub credits : List CreditRequest

unfoldable pub credit_winner : MatchResult → List CreditRequest
credit_winner result =
    let match_id = format_int result.match_id in
    let win : CreditRequest = record {
      user_id = result.winner.user_id;
      reason = "match_win";
      ref_id = match_id;
    } in
    let up : CreditRequest = record {
      user_id = result.winner.user_id;
      reason = "level_up";
      ref_id = match_id +++ ":level";
    } in
    if result.winner_leveled_up then win ∷ up ∷ [] else win ∷ []

abbrev pub in_service : Error NoRows → Error Fault
in_service unavailable = unavailable
in_service (raised e) = raised (repository e)

abbrev pub finish :
    World → Result NoRows MatchResult × Conn Tables → Result Fault MatchResult × World
finish w (ok result, c) =
    (ok result, record { conn = c; credits = w.credits ++ credit_winner result })
finish w (err e, c) = (err (in_service e), record { conn = c; credits = w.credits })

unfoldable pub apply_match : Float64 → MatchInput → World → Result Fault MatchResult × World
apply_match fl input w =
    let applied = finish w (apply_match_result fl input w.conn) in
    if input.winner_id == input.loser_id then (err (raised same_player), w) else applied
