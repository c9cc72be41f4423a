-- ===== src/Ratings/Credits.antt =====
-- Which points the ratings service asks for: services/ratings/internal/api/service/
-- ratings_service.go over the repository.
use full.Base.{ℕ, ◌≡◌, ◌≢◌, ◌⊎◌, List, [], ◌∷◌, ◌++◌, arith, ltb, if◌then◌else◌, nat_eq}
use full.Base.Db.{Conn, Result, ok, err, unavailable, raised}
use full.Base.Db.Laws.{AtomicAt}
use full.Base.Text.{◌+++◌, format_int}
use full.Ratings.Float.{Float64}
use full.Ratings.Level.{level_for_elo}
use full.Ratings.Repository.{Tables, MatchInput, MatchResult, NoRows, result_of, apply_match_result}
use full.Ratings.Effect.{apply_effect}
use full.Ratings.History.{row_of, apply_match_result-Atomic}
use full.Ratings.Service.{CreditRequest, World, same_player, credit_winner, finish, apply_match}

-- The credits that a match earns its winner: one for the win, and one for a level gained.
abbrev pub earned : ℕ → ℕ → ℕ → ℕ → List CreditRequest
earned winner match_id level_before level_after =
    record { user_id = winner; reason = "match_win"; ref_id = format_int match_id }
    ∷ (if ltb level_before level_after
        then record {
          user_id = winner;
          reason = "level_up";
          ref_id = format_int match_id +++ ":level";
        }
          ∷ []
        else [])

module _ (fl : Float64) (input : MatchInput) (w : World) where
  finish-credits :
      (out : Result NoRows MatchResult × Conn Tables)
      → AtomicAt (apply_effect fl input) w.conn out
      → let t = w.conn.tables in
        let r = result_of fl input (row_of t input.winner_id) (row_of t input.loser_id) t.next_id in
        (((finish w out).0 ≡ err unavailable) × ((finish w out).1.credits ≡ w.credits))
        ⊎ (((finish w out).0 ≡ ok r)
            × ((finish w out).1.credits
                ≡ w.credits
                  ++ earned input.winner_id t.next_id
                      (row_of t input.winner_id).level
                      (level_for_elo r.winner.elo)))
  unfolding apply_effect credit_winner
  finish-credits (ok r, c) h = ground arith
  finish-credits (err e, c) h = ground arith

  -- The service refuses a match of a player against himself with nothing changed; on an error of
  -- the database it asks for no points; and on success the result is the one computed from the
  -- two ratings before the match, and the winner is credited for the win under the match's id,
  -- and once more exactly if the new level is above the old one.
  pub apply_match-credits :
      let out = apply_match fl input w in
      let t = w.conn.tables in
      let r = result_of fl input (row_of t input.winner_id) (row_of t input.loser_id) t.next_id in
      ((input.winner_id ≡ input.loser_id) × (out.0 ≡ err (raised same_player)) × (out.1 ≡ w))
      ⊎ ((input.winner_id ≢ input.loser_id)
          × (out.0 ≡ err unavailable)
          × (out.1.credits ≡ w.credits))
      ⊎ ((input.winner_id ≢ input.loser_id)
          × (out.0 ≡ ok r)
          × (out.1.credits
              ≡ w.credits
                ++ earned input.winner_id t.next_id
                    (row_of t input.winner_id).level
                    (level_for_elo r.winner.elo)))
  unfolding apply_match
  apply_match-credits = ground (
    arith,
    finish-credits (apply_match_result fl input w.conn) (apply_match_result-Atomic fl input w.conn),
  )
