-- ===== src/Ratings/Matches.antt =====
-- ListMatchHistory of services/ratings/internal/api/repository/ratings_repository.go and
-- service/ratings_service.go. The column created_at is the argument `created_at`: the time at
-- which the row with an id was inserted. Rows of one time PostgreSQL may give in any order, and
-- in another one at the next query: the argument `ties` ranks the rows for one query.
use full.Base.{
  ℕ, ◌&&◌, ◌||◌, Bool, Option, List, String, map, ltb, ◌==◌, nat_eq, if◌then◌else◌, filter, sort_by,
  take, drop,
}
use full.Base.Int.{ℤ}
use full.Base.Db.{Db, statement}
use full.Ratings.Repository.{MatchRow, Tables, NoRows}

-- domain.MatchHistoryItem
pub record MatchHistoryItem : Type 0 where
  pub match_id : ℕ
  pub opponent_id : ℕ
  pub result : String
  pub mode : String
  pub elo_delta : ℤ
  pub duration_ms : Option ℕ
  pub created_at : ℕ

module _ (created_at : ℕ → ℕ) (user_id : ℕ) where
  abbrev pub involves : MatchRow → Bool
  involves m = m.winner_id == user_id || m.loser_id == user_id

  -- The columns of sqlListMatchHistory.
  unfoldable pub item_of : MatchRow → MatchHistoryItem
  item_of m =
      let won = m.winner_id == user_id in
      record {
        match_id = m.id;
        opponent_id = (if won then m.loser_id else m.winner_id);
        result = (if won then "win" else "loss");
        mode = m.mode;
        elo_delta = (if won then m.winner_elo_delta else m.loser_elo_delta);
        duration_ms = m.duration_ms;
        created_at = created_at m.id;
      }

  module _ (ties : ℕ → ℕ) where
    -- ORDER BY created_at DESC
    abbrev pub newer : MatchRow → MatchRow → Bool
    newer m n =
        ltb (created_at n.id) (created_at m.id)
        || (created_at m.id == created_at n.id && ltb (ties m.id) (ties n.id))

    unfoldable pub history : List MatchRow → List MatchRow
    history matches = sort_by newer (filter involves matches)

    -- sqlListMatchHistory
    unfoldable pub select_history : ℕ → ℕ → List MatchRow → List MatchHistoryItem
    select_history limit offset matches = map item_of (take limit (drop offset (history matches)))

    -- ListMatchHistory
    unfoldable pub list_match_history : ℕ → ℕ → Db NoRows Tables (List MatchHistoryItem)
    list_match_history limit offset = statement (λ t. (select_history limit offset t.matches, t))
