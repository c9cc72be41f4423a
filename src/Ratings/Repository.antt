-- ===== src/Ratings/Repository.antt =====
-- services/ratings/internal/api/repository/ratings_repository.go: ApplyMatchResult and GetRating
-- over the tables `ratings` and `match_results`.
use full.Base.{
  ℕ, suc, ◌+◌, Bool, Option, none, some, List, ◌∷◌, String, ltb, ◌==◌, nat_eq, if◌then◌else◌,
}
use full.Base.Int.{ℤ, ◌+ℤ◌}
use full.Base.Dict
use full.Base.Dict.{Dict}
use full.Base.Db.{Db, pure, raise, statement, transaction, ◌>>=◌, ◌>>◌}
use full.Ratings.Float.{Float64}
use full.Ratings.Elo.{calc_elo_deltas, default_elo, default_level, default_games_played}
use full.Ratings.Level.{level_for_elo}

-- A row of `ratings`, and domain.Rating with its user id.
pub record Row : Type 0 where
  pub elo : ℤ
  pub level : ℕ
  pub games_played : ℕ

pub record Rating : Type 0 where
  pub user_id : ℕ
  pub row : Row
  pub open row use *

-- domain.MatchInput
pub record MatchInput : Type 0 where
  pub winner_id : ℕ
  pub loser_id : ℕ
  pub mode : String
  pub duration_ms : Option ℕ

-- A row of `match_results`.
pub record MatchRow : Type 0 where
  pub id : ℕ
  pub winner_id : ℕ
  pub loser_id : ℕ
  pub mode : String
  pub winner_elo_delta : ℤ
  pub loser_elo_delta : ℤ
  pub duration_ms : Option ℕ

-- `matches` has the newest row first; `next_id` is the identity column's next value.
pub record Tables : Type 0 where
  pub ratings : Dict ℕ Row
  pub matches : List MatchRow
  pub next_id : ℕ

-- domain.MatchResult
pub record MatchResult : Type 0 where
  pub winner : Rating
  pub loser : Rating
  pub winner_delta : ℤ
  pub loser_delta : ℤ
  pub match_id : ℕ
  pub winner_leveled_up : Bool

-- pgx.ErrNoRows from the row lock.
pub data NoRows : Type 0 where
  no_rows : NoRows

abbrev pub default_row : Row
default_row = record {
  elo = default_elo;
  level = default_level;
  games_played = default_games_played;
}

abbrev pub found_or_default : Option Row → Row
found_or_default none = default_row
found_or_default (some r) = r

abbrev pub insert_default : ℕ → Option Row → Dict ℕ Row → Dict ℕ Row
insert_default u none d = Dict.put d u default_row
insert_default u (some r) d = d

-- INSERT … ON CONFLICT (user_id) DO NOTHING
unfoldable pub upsert_default : ℕ → Db NoRows Tables (Unit {0})
upsert_default u =
    statement λ t. (tt, record t { ratings = insert_default u (Dict.get t.ratings u) t.ratings })

abbrev pub or_no_rows : Option Row → Db NoRows Tables Row
or_no_rows none = raise no_rows
or_no_rows (some r) = pure r

-- SELECT … FOR UPDATE, scanned into a Rating.
unfoldable pub lock_rating : ℕ → Db NoRows Tables Row
lock_rating u = do found ← statement (λ t. (Dict.get t.ratings u, t)); or_no_rows found

abbrev pub update_row : ℕ → Row → Option Row → Dict ℕ Row → Dict ℕ Row
update_row u r none d = d
update_row u r (some _) d = Dict.put d u r

-- UPDATE … WHERE user_id = $1 changes nothing where there is no such row.
unfoldable pub exec_update : Rating → Db NoRows Tables (Unit {0})
exec_update r = statement λ t.
    (tt, record t { ratings = update_row r.user_id r.row (Dict.get t.ratings r.user_id) t.ratings })

-- INSERT INTO match_results … RETURNING id
unfoldable pub insert_match_result : MatchInput → ℤ → ℤ → Db NoRows Tables ℕ
insert_match_result input dw dl = statement λ t. (
  t.next_id,
  record t {
    matches =
        record {
          id = t.next_id;
          winner_id = input.winner_id;
          loser_id = input.loser_id;
          mode = input.mode;
          winner_elo_delta = dw;
          loser_elo_delta = dl;
          duration_ms = input.duration_ms;
        }
        ∷ t.matches;
    next_id = suc t.next_id;
  },
)

-- The rating after a match that changed it by `delta`.
abbrev pub after_match : ℕ → Row → ℤ → Rating
after_match u before delta = record {
  user_id = u;
  row = record {
    elo = before.elo +ℤ delta;
    level = level_for_elo (before.elo +ℤ delta);
    games_played = before.games_played + 1;
  };
}

module _ (fl : Float64) where
  -- The result that ApplyMatchResult computes from the two rows before the match.
  abbrev pub result_of : MatchInput → Row → Row → ℕ → MatchResult
  result_of input before_w before_l id =
      let (dw, dl) =
        calc_elo_deltas fl before_w.elo before_l.elo before_w.games_played before_l.games_played in
      let new_winner = after_match input.winner_id before_w dw in
      record {
        winner = new_winner;
        loser = after_match input.loser_id before_l dl;
        winner_delta = dw;
        loser_delta = dl;
        match_id = id;
        winner_leveled_up = ltb before_w.level new_winner.level;
      }

  -- The statements of ApplyMatchResult inside its transaction.
  unfoldable pub apply_match_result_tx : MatchInput → Db NoRows Tables MatchResult
  apply_match_result_tx input =
      let swapped = ltb input.loser_id input.winner_id in
      let first_id = if swapped then input.loser_id else input.winner_id in
      let second_id = if swapped then input.winner_id else input.loser_id in
      do
        upsert_default first_id
        upsert_default second_id
        first ← lock_rating first_id
        second ← lock_rating second_id
        let won_first = input.winner_id == first_id
        let winner_before = if won_first then first else second
        let loser_before = if won_first then second else first
        let r = result_of input winner_before loser_before 0
        exec_update r.winner
        exec_update r.loser
        match_id ← insert_match_result input r.winner_delta r.loser_delta
        pure (record r { match_id = match_id })

  unfoldable pub apply_match_result : MatchInput → Db NoRows Tables MatchResult
  apply_match_result input = transaction (apply_match_result_tx input)

unfoldable pub get_rating : ℕ → Db NoRows Tables Rating
get_rating u = do
  found ← statement (λ t. (Dict.get t.ratings u, t))
  pure (record { user_id = u; row = found_or_default found })
