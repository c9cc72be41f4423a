-- ===== src/Ratings/Handlers.antt =====
-- services/ratings/internal/api/delivery/ratings_handler.go, with ListMatchHistory and GetRating of
-- service/ratings_service.go, which pass on what the repository answers. Ids of users are positive.
use full.Base.{
  ℕ, suc, Bool, true, not, ◌&&◌, Option, none, some, List, String, leb, ltb, ◌==◌, string_eq,
  if◌then◌else◌,
}
use full.Base.Db.{Conn, Result, ok, err, raised}
use full.Base.Decimal.{parse_int}
use full.Base.Http.{Reply, json, error}
use full.Base.Int.{ℤ, pos, negsuc, ltb_ℤ, leb_ℤ}
use full.Ratings.Float.{Float64}
use full.Ratings.Repository.{MatchInput, MatchResult, Rating, Row, Tables, NoRows, get_rating}
use full.Ratings.Service.{Fault, same_player, World, apply_match}
use full.Ratings.Matches.{MatchHistoryItem, list_match_history}

-- matchResultRequest
pub record MatchResultRequest : Type 0 where
  pub winner_id : ℤ
  pub loser_id : ℤ
  pub mode : String
  pub duration_ms : Option ℤ

abbrev text_length : String → ℕ
text_length String.[] = 0
text_length (String.◌∷◌ c s) = suc (text_length s)

abbrev is_duration : Option ℤ → Bool
is_duration none = true
is_duration (some d) = leb_ℤ (pos 0) d

-- The tags of matchResultRequest.
unfoldable pub is_valid_result : MatchResultRequest → Bool
is_valid_result req =
    ltb_ℤ (pos 0) req.winner_id
    && ltb_ℤ (pos 0) req.loser_id
    && not (req.mode == "")
    && leb (text_length req.mode) 64
    && is_duration req.duration_ms

abbrev nat_of : ℤ → ℕ
nat_of (pos n) = n
nat_of (negsuc n) = 0

abbrev duration_of : Option ℤ → Option ℕ
duration_of none = none
duration_of (some d) = some (nat_of d)

abbrev pub input_of : MatchResultRequest → MatchInput
input_of req = record {
  winner_id = nat_of req.winner_id;
  loser_id = nat_of req.loser_id;
  mode = req.mode;
  duration_ms = duration_of req.duration_ms;
}

-- playerRating
pub record PlayerRating : Type 0 where
  pub elo : ℤ
  pub level : ℕ
  pub games_played : ℕ
  pub elo_delta : ℤ

abbrev player_rating : Row → ℤ → PlayerRating
player_rating r delta = record {
  elo = r.elo;
  level = r.level;
  games_played = r.games_played;
  elo_delta = delta;
}

abbrev pub applied : Result Fault MatchResult × World → Reply (PlayerRating × PlayerRating) × World
applied (ok r, w) = (
  json 200 (player_rating r.winner.row r.winner_delta, player_rating r.loser.row r.loser_delta),
  w,
)
applied (err (raised same_player), w) = (error 400 "winner_id and loser_id must be different", w)
applied (err e, w) = (error 500 "internal error", w)

-- PostMatchResult; the request is none where the body could not be bound.
unfoldable pub post_match_result :
    Float64 → Option MatchResultRequest → World → Reply (PlayerRating × PlayerRating) × World
post_match_result fl none w = (error 400 "invalid request body", w)
post_match_result fl (some req) w =
    let out = applied (apply_match fl (input_of req) w) in
    if is_valid_result req then out else (error 400 "invalid request", w)

-- A positive id, none for anything else.
abbrev positive : Option ℤ → Option ℕ
positive (some (pos (suc n))) = some (suc n)
positive _ = none

abbrev non_negative : Option ℤ → Option ℕ
non_negative (some (pos n)) = some n
non_negative _ = none

abbrev pub max_page_limit : ℕ
max_page_limit = 50

abbrev capped : Option ℕ → Option ℕ
capped none = none
capped (some l) = some (if ltb max_page_limit l then max_page_limit else l)

-- The limit of a query, none for one that is refused.
unfoldable pub page_limit : String → Option ℕ
page_limit raw = if raw == "" then some 20 else capped (non_negative (parse_int raw))

unfoldable pub page_offset : String → Option ℕ
page_offset raw = if raw == "" then some 0 else non_negative (parse_int raw)

abbrev listed :
    Result NoRows (List MatchHistoryItem) × Conn Tables
    → Reply (List MatchHistoryItem) × Conn Tables
listed (ok items, c) = (json 200 items, c)
listed (err e, c) = (error 500 "internal error", c)

module _ (created_at ties : ℕ → ℕ) where
  abbrev page_at :
      Option ℕ → Option ℕ → Option ℕ → Conn Tables → Reply (List MatchHistoryItem) × Conn Tables
  page_at none l o c = (error 400 "user_id must be a positive integer", c)
  page_at (some u) none o c = (error 400 "limit must be a non-negative integer", c)
  page_at (some u) (some l) none c = (error 400 "offset must be a non-negative integer", c)
  page_at (some u) (some l) (some o) c = listed (list_match_history created_at u ties l o c)

  -- GetMatchHistory
  unfoldable pub get_match_history :
      String → String → String → Conn Tables → Reply (List MatchHistoryItem) × Conn Tables
  get_match_history raw_user_id raw_limit raw_offset c =
      let page =
        page_at (positive (parse_int raw_user_id)) (page_limit raw_limit) (page_offset raw_offset)
          c in
      if raw_user_id == "" then (error 400 "user_id is required", c) else page

abbrev rated : Result NoRows Rating × Conn Tables → Reply Row × Conn Tables
rated (ok r, c) = (json 200 r.row, c)
rated (err e, c) = (error 500 "internal error", c)

abbrev rating_at : Option ℕ → Conn Tables → Reply Row × Conn Tables
rating_at none c = (error 400 "user_id must be a positive integer", c)
rating_at (some u) c = rated (get_rating u c)

-- GetRating
unfoldable pub get_rating_of : String → Conn Tables → Reply Row × Conn Tables
get_rating_of raw c = rating_at (positive (parse_int raw)) c
