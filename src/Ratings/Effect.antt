-- ===== src/Ratings/Effect.antt =====
-- What ApplyMatchResult (services/ratings/internal/api/repository/ratings_repository.go) does to
-- the tables, with the connection's failures set apart.
use full.Base.{
  ℕ, suc, ◌≡◌, refl, Option, none, some, ◌∷◌, arith, ltb, ◌==◌, nat_eq, if◌then◌else◌, Option-cases,
}
use full.Base.Dict
use full.Base.Dict.{Dict, get-put}
use full.Base.Db.{Db, Result, ok, err, pure, raise, statement, transaction, ◌>>=◌, ◌>>◌}
use full.Base.Db.Laws.{
  Effect, Follows, Follows-bind, Follows-pure, Follows-raise, Follows-statement, Follows-ext,
}
use full.Ratings.Float.{Float64}
use full.Ratings.Repository.{
  Row, MatchInput, Tables, MatchResult, NoRows, no_rows, default_row, insert_default,
  upsert_default, or_no_rows, lock_rating, exec_update, insert_match_result, result_of,
  apply_match_result_tx, found_or_default,
}

-- The row of a player, materialised where it was missing.
unfoldable pub with_default : ℕ → Dict ℕ Row → Dict ℕ Row
with_default u d = insert_default u (Dict.get d u) d

pub get-with_default :
    (d : Dict ℕ Row) (u j : ℕ)
    → Dict.get (with_default u d) j
      ≡ (if u == j then some (found_or_default (Dict.get d j)) else Dict.get d j)
unfolding with_default
get-with_default d u j = ground (arith, get-put d u j default_row)

upsert_default-Follows :
    (u : ℕ)
    → Follows (upsert_default u) (λ t. (ok tt, record t { ratings = with_default u t.ratings }))
unfolding upsert_default with_default
upsert_default-Follows u = Follows-statement _

locked : Option Row → Tables → Result NoRows Row × Tables
locked none t = (err (full.Base.Db.Error.raised no_rows), t)
locked (some r) t = (ok r, t)

or_no_rows-Follows : (o : Option Row) → Follows {S = Tables} (or_no_rows o) (locked o)
unfolding locked
or_no_rows-Follows none = Follows-raise no_rows
or_no_rows-Follows (some r) = Follows-pure r

lock_rating-Follows : (u : ℕ) → Follows (lock_rating u) (λ t. locked (Dict.get t.ratings u) t)
unfolding lock_rating
lock_rating-Follows u =
    Follows-ext _ _ _ (λ t. refl)
      (Follows-bind _ _ _ locked (Follows-statement _) or_no_rows-Follows)

module _ (fl : Float64) (input : MatchInput) where
  -- Both rows as they were, or the defaults; then the two updates and the new match row.
  unfoldable pub apply_effect : Effect NoRows Tables MatchResult
  apply_effect t =
      let swapped = ltb input.loser_id input.winner_id in
      let first_id = if swapped then input.loser_id else input.winner_id in
      let second_id = if swapped then input.winner_id else input.loser_id in
      let before_w = found_or_default (Dict.get t.ratings input.winner_id) in
      let before_l = found_or_default (Dict.get t.ratings input.loser_id) in
      let r = result_of fl input before_w before_l t.next_id in
      let d = with_default second_id (with_default first_id t.ratings) in
      (
        ok r,
        record {
          ratings = Dict.put (Dict.put d input.winner_id r.winner.row) input.loser_id r.loser.row;
          matches =
              record {
                id = t.next_id;
                winner_id = input.winner_id;
                loser_id = input.loser_id;
                mode = input.mode;
                winner_elo_delta = r.winner_delta;
                loser_elo_delta = r.loser_delta;
                duration_ms = input.duration_ms;
              }
              ∷ t.matches;
          next_id = suc t.next_id;
        },
      )

  abbrev new_winner : Tables → Row
  new_winner t =
      let before_w = found_or_default (Dict.get t.ratings input.winner_id) in
      let before_l = found_or_default (Dict.get t.ratings input.loser_id) in
      (result_of fl input before_w before_l 0).winner.row

  -- With the rows in place every lock finds its row, and every update its target.
  apply_effect_lem :
      (t : Tables) (first second : ℕ)
      → let d = with_default second (with_default first t.ratings) in
        (Dict.get d first ≡ some (found_or_default (Dict.get t.ratings first)))
        × (Dict.get d second ≡ some (found_or_default (Dict.get t.ratings second)))
  apply_effect_lem t first second = ground (
    arith,
    get-with_default (with_default first t.ratings) second first,
    get-with_default (with_default first t.ratings) second second,
    get-with_default t.ratings first first,
    get-with_default t.ratings first second,
  )

  pub apply_match_result_tx-Follows : Follows (apply_match_result_tx fl input) apply_effect
  unfolding apply_effect apply_match_result_tx locked exec_update insert_match_result
  apply_match_result_tx-Follows =
      Follows-ext _ _ apply_effect
        (λ s. ground (
          arith,
          apply_effect_lem s input.winner_id input.loser_id,
          apply_effect_lem s input.loser_id input.winner_id,
          get-put (with_default input.loser_id (with_default input.winner_id s.ratings))
              input.winner_id input.loser_id (new_winner s),
          get-put (with_default input.winner_id (with_default input.loser_id s.ratings))
              input.winner_id input.loser_id (new_winner s),
        ))
        (Follows-bind _ _ _ _ (upsert_default-Follows _) λ _.
          Follows-bind _ _ _ _ (upsert_default-Follows _) λ _.
            Follows-bind _ _ _ _ (lock_rating-Follows _) λ first.
              Follows-bind _ _ _ _ (lock_rating-Follows _) λ second.
                Follows-bind _ _ _ _ (Follows-statement _) λ _.
                  Follows-bind _ _ _ _ (Follows-statement _)
                    λ _. Follows-bind _ _ _ _ (Follows-statement _) λ id. Follows-pure _)
