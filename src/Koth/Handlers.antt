-- ===== src/Koth/Handlers.antt =====
-- services/koth/internal/api/delivery/hill_handler.go and rank_handler.go, with Leaderboard of
-- service/rank_service.go. The user is none where RequireAuth put none into the context, and a
-- request is none where its body could not be bound.
use full.Base.{ℕ, Bool, not, ◌&&◌, Option, none, some, List, String, ◌==◌, string_eq, if◌then◌else◌}
use full.Base.Db.{Conn, Error, Result, ok, err, raised}
use full.Base.Http.{Reply, json, error}
use full.Base.Int.{ℤ, pos, leb_ℤ, ltb_ℤ}
use full.Koth.Clock.{Time}
use full.Koth.Hill.{KingReign, ChallengeOutcome, hill_not_found}
use full.Koth.Credits
use full.Koth.Credits.{Fault, invalid_hill_type, repository, current_king}
use full.Koth.Attempts
use full.Koth.Attempts.{
  AttemptResult, MeResult, HillRank, RankCount, RankFault, invalid_hold_ms, submit_attempt, me,
  rank_distribution,
}

-- kingResponse
pub record KingResponse : Type 0 where
  pub user_id : ℕ
  pub clip_id : String
  pub blink_ts_ms : ℤ

-- toKingResponse
unfoldable pub to_king_response : KingReign → KingResponse
to_king_response king = record {
  user_id = king.user_id;
  clip_id = king.clip_id;
  blink_ts_ms = king.blink_ts_ms;
}

abbrev pub hill_error : {A : Type 0} → Error Fault → Reply A
hill_error (raised invalid_hill_type) = error 400 "invalid hill_type"
hill_error (raised (repository hill_not_found)) = error 404 "hill not seeded"
hill_error e = error 500 "internal server error"

abbrev pub king_shown : Result Fault KingReign × Credits.World → Reply KingResponse × Credits.World
king_shown (ok king, w) = (json 200 (to_king_response king), w)
king_shown (err e, w) = (hill_error e, w)

-- hillHandler.CurrentKing
unfoldable pub get_king : String → Credits.World → Reply KingResponse × Credits.World
get_king hill_type w = king_shown (current_king hill_type w)

-- challengeRequest
pub record ChallengeRequest : Type 0 where
  pub survived_ms : ℤ
  pub new_clip_id : String

-- The tags of challengeRequest.
abbrev pub is_valid_challenge : ChallengeRequest → Bool
is_valid_challenge req = leb_ℤ (pos 0) req.survived_ms && not (req.new_clip_id == "")

abbrev pub challenge_shown :
    Result Fault ChallengeOutcome × Credits.World → Reply (Bool × KingResponse) × Credits.World
challenge_shown (ok outcome, w) = (json 200 (outcome.won, to_king_response outcome.king), w)
challenge_shown (err e, w) = (hill_error e, w)

-- hillHandler.Challenge
unfoldable pub post_challenge :
    ℤ
    → String
    → Option ℕ
    → Option ChallengeRequest
    → Credits.World
    → Reply (Bool × KingResponse) × Credits.World
post_challenge win_amount hill_type none req w = (error 401 "unauthorized", w)
post_challenge win_amount hill_type (some user_id) none w = (error 400 "bad request", w)
post_challenge win_amount hill_type (some user_id) (some req) w =
    let out =
      challenge_shown
        (Credits.challenge win_amount hill_type user_id req.survived_ms req.new_clip_id w) in
    if is_valid_challenge req then out else (error 400 "bad request", w)

abbrev pub attempt_shown :
    Result Attempts.Fault AttemptResult × Attempts.World → Reply AttemptResult × Attempts.World
attempt_shown (ok result, w) = (json 200 result, w)
attempt_shown (err (raised invalid_hold_ms), w) = (error 400 "held_ms must be positive", w)
attempt_shown (err e, w) = (error 500 "internal server error", w)

-- rankHandler.SubmitAttempt; the request is its field held_ms.
unfoldable pub post_attempt :
    ℤ → List ℤ → Time → Option ℕ → Option ℤ → Attempts.World → Reply AttemptResult × Attempts.World
post_attempt rank_amount thresholds day none req w = (error 401 "unauthorized", w)
post_attempt rank_amount thresholds day (some user_id) none w = (error 400 "bad request", w)
post_attempt rank_amount thresholds day (some user_id) (some held_ms) w =
    let out = attempt_shown (submit_attempt rank_amount thresholds user_id held_ms day w) in
    if ltb_ℤ (pos 0) held_ms then out else (error 400 "bad request", w)

abbrev pub me_shown :
    Result Attempts.Fault MeResult × Conn (List HillRank) → Reply MeResult × Conn (List HillRank)
me_shown (ok result, c) = (json 200 result, c)
me_shown (err e, c) = (error 500 "internal server error", c)

-- rankHandler.Me
unfoldable pub get_me :
    List ℤ → Time → Option ℕ → Conn (List HillRank) → Reply MeResult × Conn (List HillRank)
get_me thresholds day none c = (error 401 "unauthorized", c)
get_me thresholds day (some user_id) c = me_shown (me thresholds user_id day c)

abbrev pub counts_shown :
    Result RankFault (List RankCount) × Conn (List HillRank)
    → Reply (List RankCount) × Conn (List HillRank)
counts_shown (ok counts, c) = (json 200 counts, c)
counts_shown (err e, c) = (error 500 "internal server error", c)

-- rankHandler.Leaderboard
unfoldable pub get_leaderboard :
    Time → Conn (List HillRank) → Reply (List RankCount) × Conn (List HillRank)
get_leaderboard day c = counts_shown (rank_distribution day c)
