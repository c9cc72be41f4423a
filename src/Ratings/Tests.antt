-- ===== src/Ratings/Tests.antt =====
-- Concrete inputs for services/ratings: whole numbers stand in for float64.
use full.Base.{
  ℕ, ◌+◌, ◌≡◌, ◌≢◌, ◌≤◌, refl, ◌⊎◌, inl, inr, Bool, true, false, Option, none, some, List, [], ◌∷◌,
  ◌++◌, String, arith, ltb, length, ◌==◌, nat_eq, if◌then◌else◌,
}
use full.Base.Int.{ℤ, pos, negsuc, ◌+ℤ◌, ◌-ℤ◌, ◌≤ℤ◌, ltb_ℤ, +ℤ_parts, -ℤ_parts}
use full.Base.Db.{Conn, ok, err, unavailable, raised, answered, refused}
use full.Ratings.Float.{Float64}
use full.Ratings.Level.{level_for_elo}
use full.Ratings.Repository.{MatchInput, Tables, result_of, apply_match_result}
use full.Ratings.History.{row_of, IsConsistent, apply_match_result-IsConsistent}
use full.Base.Http.{json}
use full.Base.Text.{format_int}
use full.Ratings.Matches.{MatchHistoryItem, select_history}
use full.Ratings.Pages.{AreApart, added_up, read_pages, read_pages-rating}
use full.Ratings.Handlers.{get_match_history}
use full.Ratings.Replies.{get_match_history-page}
use full.Ratings.Service.{World, apply_match, same_player}
use full.Ratings.Credits.{earned, apply_match-credits}

-- A product whose second factor is a sign.
abbrev times : ℤ → ℤ → ℤ
times a x = if ltb_ℤ (pos 0) x then a else if ltb_ℤ x (pos 0) then pos 0 -ℤ a else pos 0

abbrev whole : Float64
whole = record {
  F = ℤ;
  ◌≤F◌ = ◌≤ℤ◌;
  add = ◌+ℤ◌;
  sub = ◌-ℤ◌;
  mul = times;
  div = λ a y. a;
  pow10 = λ x. pos 1;
  of_int = λ n. n;
  round = λ x. x;
  four_fifths = pos 1;
  pow10_nonneg = λ x. omega arith;
  four_fifths_bounds = (omega arith, omega arith);
  of_int_nonneg = λ n. omega arith;
  one_le_add = λ x h. ground (arith, +ℤ_parts (pos 1) x);
  div_bounds = λ y h. (omega arith, omega arith);
  sub_bounds = λ x h k. ground (arith, -ℤ_parts (pos 1) x);
  mul_bounds = λ a x ha h k. ground arith;
  scale_bounds = λ a x ha h k. ground arith;
  mul_neg_bounds = λ a x n ha hn h k.
      ground (arith, -ℤ_parts (pos 0) x, -ℤ_parts (pos 0) a, -ℤ_parts (pos 0) (pos n));
  round_mono = λ x y h. h;
  round_int = λ n. refl;
}

abbrev duel : MatchInput
duel = record { winner_id = 7; loser_id = 3; mode = "ranked"; duration_ms = some 1200 }

abbrev empty_tables : Tables
empty_tables = record { ratings = []; matches = []; next_id = 1 }

-- The fourth statement is refused.
abbrev shaky : Conn Tables
shaky = record {
  tables = empty_tables;
  fates = answered ∷ answered ∷ answered ∷ answered ∷ refused ∷ [];
}

abbrev steady : Conn Tables
steady = record { tables = empty_tables; fates = [] }

duel_ids : duel.winner_id ≢ duel.loser_id
duel_ids = ground arith

empty-IsConsistent : IsConsistent empty_tables
unfolding full.Base.Dict.get level_for_elo
empty-IsConsistent = record { elo = λ u. refl; games = λ u. refl; level = λ u. refl }

apply_match_result-IsConsistent_example :
    IsConsistent (apply_match_result whole duel steady).1.tables
apply_match_result-IsConsistent_example =
    apply_match_result-IsConsistent whole duel steady duel_ids empty-IsConsistent

abbrev day_one : World
day_one = record { conn = steady; credits = [] }

apply_match-credits_example :
    let out = apply_match whole duel day_one in
    let r = result_of whole duel (row_of empty_tables 7) (row_of empty_tables 3) 1 in
    ((duel.winner_id ≡ duel.loser_id) × (out.0 ≡ err (raised same_player)) × (out.1 ≡ day_one))
    ⊎ ((duel.winner_id ≢ duel.loser_id) × (out.0 ≡ err unavailable) × (out.1.credits ≡ []))
    ⊎ ((duel.winner_id ≢ duel.loser_id)
        × (out.0 ≡ ok r)
        × (out.1.credits
            ≡ [] ++ earned 7 1 (row_of empty_tables 7).level (level_for_elo r.winner.elo)))
apply_match-credits_example = apply_match-credits whole duel day_one

-- Two matches played: 7 beat 3, and then lost.
abbrev played : Conn Tables
played = record {
  tables = record {
    ratings =
        (7, record { elo = pos 999; level = level_for_elo (pos 999); games_played = 2 })
        ∷ (3, record { elo = pos 1001; level = level_for_elo (pos 1001); games_played = 2 })
        ∷ [];
    matches =
        record {
          id = 2;
          winner_id = 3;
          loser_id = 7;
          mode = "ranked";
          winner_elo_delta = pos 21;
          loser_elo_delta = negsuc 20;
          duration_ms = none;
        }
        ∷ record {
          id = 1;
          winner_id = 7;
          loser_id = 3;
          mode = "ranked";
          winner_elo_delta = pos 20;
          loser_elo_delta = negsuc 19;
          duration_ms = some 1200;
        }
        ∷ [];
    next_id = 3;
  };
  fates = [];
}

played-IsConsistent : IsConsistent played.tables
unfolding full.Base.Dict.get level_for_elo ◌+ℤ◌
played-IsConsistent = record {
  elo = λ u. ground arith;
  games = λ u. ground arith;
  level = λ u. ground arith;
}

abbrev clock : ℕ → ℕ
clock id = 100 + id

-- How the queries rank rows of one time.
abbrev ranks : ℕ → ℕ → ℕ
ranks k id = k + id

played-AreApart : AreApart clock 7 played.tables.matches
played-AreApart time = ground (arith, nat_eq.same_iff 101 time, nat_eq.same_iff 102 time)

abbrev pages : List MatchHistoryItem
pages = read_pages clock 7 ranks 1 2 0 played

read_pages-rating_example :
    (length pages ≡ (row_of played.tables 7).games_played)
    × (added_up pages ≡ (row_of played.tables 7).elo)
unfolding full.Base.Dict.get
read_pages-rating_example =
    read_pages-rating clock 7 ranks 1 2 played refl played-IsConsistent played-AreApart
      (omega arith)

get_match_history-page_example :
    let page = select_history clock 7 (ranks 0) 50 0 played.tables.matches in
    let out =
      get_match_history clock (ranks 0) (format_int 7) (format_int 99) (format_int 0) played in
    (out.0 ≡ json 200 page) × (length page ≤ 50) × (out.1.tables ≡ played.tables)
get_match_history-page_example =
    get_match_history-page clock (ranks 0) 6 99 0 played refl (omega arith) (omega arith)
      (omega arith)
