-- ===== src/Ratings/History.antt =====
-- The ratings and the match history agree: services/ratings/internal/api/repository/
-- ratings_repository.go over any schedule of connection failures.
use full.Base.{ℕ, ◌+◌, ◌≡◌, ◌≢◌, List, [], ◌∷◌, arith, ◌==◌, nat_eq, if◌then◌else◌}
use full.Base.Int.{ℤ, ◌+ℤ◌}
use full.Base.Dict
use full.Base.Dict.{get-put}
use full.Base.Db.{Conn}
use full.Base.Db.Laws.{Atomic, AtomicAt-keeps, Atomic-transaction}
use full.Ratings.Float.{Float64}
use full.Ratings.Elo.{default_elo}
use full.Ratings.Level.{level_for_elo}
use full.Ratings.Repository.{
  Row, MatchInput, MatchRow, Tables, result_of, apply_match_result, found_or_default,
}
use full.Ratings.Effect.{get-with_default, apply_effect, apply_match_result_tx-Follows}

-- The elo of a player by the match rows alone: the default, and each delta of a match played.
abbrev pub history_elo : ℕ → List MatchRow → ℤ
history_elo u [] = default_elo
history_elo u (m ∷ ms) =
    if m.winner_id == u
    then history_elo u ms +ℤ m.winner_elo_delta
    else if m.loser_id == u
    then history_elo u ms +ℤ m.loser_elo_delta
    else history_elo u ms

-- How many match rows name a player.
abbrev pub history_games : ℕ → List MatchRow → ℕ
history_games u [] = 0
history_games u (m ∷ ms) =
    history_games u ms + (if m.winner_id == u then 1 else if m.loser_id == u then 1 else 0)

abbrev pub row_of : Tables → ℕ → Row
row_of t u = found_or_default (Dict.get t.ratings u)

-- Every rating is the one that the match history gives, and its level the one of its elo.
pub record IsConsistent (t : Tables) : Type 0 where
  pub elo : (u : ℕ) → (row_of t u).elo ≡ history_elo u t.matches
  pub games : (u : ℕ) → (row_of t u).games_played ≡ history_games u t.matches
  pub level : (u : ℕ) → (row_of t u).level ≡ level_for_elo (row_of t u).elo

module _ (fl : Float64) (input : MatchInput) where
  -- A match result is recorded whole or not at all, whatever fails on the way: after an error of
  -- the connection the tables are unchanged, or as after the match where only the reply to the
  -- commit was lost; otherwise the result and the tables are those of `apply_effect`.
  pub apply_match_result-Atomic : Atomic (apply_match_result fl input) (apply_effect fl input)
  unfolding apply_match_result apply_effect
  apply_match_result-Atomic = Atomic-transaction _ _ (apply_match_result_tx-Follows fl input)

  -- The rows after a match: the two players' are the computed ones, and no other changes.
  pub row_of-apply_effect :
      (t : Tables) (u : ℕ)
      → input.winner_id ≢ input.loser_id
      → let r = result_of fl input (row_of t input.winner_id) (row_of t input.loser_id) t.next_id in
        row_of (apply_effect fl input t).1 u ≡ (
          if input.winner_id == u
          then r.winner.row
          else if input.loser_id == u
          then r.loser.row
          else row_of t u)
  unfolding apply_effect
  row_of-apply_effect t u h = simp (get-put, get-with_default) (ground (arith, h))

  apply_effect-IsConsistent :
      (t : Tables)
      → input.winner_id ≢ input.loser_id
      → IsConsistent t
      → IsConsistent (apply_effect fl input t).1
  apply_effect-IsConsistent t h c = record {
    elo = λ u. rw (row_of-apply_effect t u h) (unfold apply_effect in ground (arith, c.elo u));
    games = λ u. rw (row_of-apply_effect t u h) (unfold apply_effect in ground (arith, c.games u));
    level = λ u. rw (row_of-apply_effect t u h) (ground (arith, c.level u));
  }

  -- A match between two different players keeps consistent ratings consistent with the history,
  -- whatever fails.
  pub apply_match_result-IsConsistent :
      (c : Conn Tables)
      → input.winner_id ≢ input.loser_id
      → IsConsistent c.tables
      → IsConsistent (apply_match_result fl input c).1.tables
  apply_match_result-IsConsistent c h k =
      AtomicAt-keeps IsConsistent (apply_effect fl input) c (apply_match_result fl input c)
        (apply_match_result-Atomic c) k (apply_effect-IsConsistent c.tables h k)
