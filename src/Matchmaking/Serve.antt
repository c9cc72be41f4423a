-- ===== src/Matchmaking/Serve.antt =====
-- services/matchmaking/internal/api/delivery/matchmaking_handler.go: the life of one connection,
-- after its session was resolved. A write that fails is dropped.
use full.Base.{ℕ, Option, List, [], ◌∷◌, ◌++◌, String, ◌==◌, string_eq, if◌then◌else◌}
use full.Base.Db.{Result, ok, err, Error, raised}
use full.Base.Int.{ℤ}
use full.Base.Redis.Hash.{Hash}
use full.Matchmaking.Player.{Player, invalid_level, invalid_mode}
use full.Matchmaking.Queue.{Value}
use full.Matchmaking.Service.{Cooldown, Fault, invalid, cooling_down, World, join, leave}

-- InboundMessage
pub record Message : Type 0 where
  pub type : String
  pub mode : String
  pub level : ℤ

pub data Sent : Type 0 where
  cooldown : ℤ → Sent
  error_message : String → Sent

-- The variable currentMode, and what was written.
pub record Session : Type 0 where
  pub current_mode : String
  pub sent : List Sent

abbrev pub send : Sent → Session → Session
send m s = record s { sent = s.sent ++ m ∷ [] }

-- safeErrMsg
unfoldable pub safe_err_msg : Error Fault → String
safe_err_msg (raised (invalid invalid_level)) = "level must be between 1 and 10"
safe_err_msg (raised (invalid invalid_mode)) = "mode must match ^[a-z0-9_-]{1,32}$"
safe_err_msg e = "internal error"

-- The answer to a join that failed.
unfoldable pub join_error : Error Fault → Session → Session
unfolding safe_err_msg
join_error (raised (cooling_down seconds)) s = send (cooldown seconds) s
join_error e s = send (error_message (safe_err_msg e)) s

module _ (redis : Hash Value) where
  -- A message, with what the clock and the two clients answer while it is handled; between the
  -- messages the service acts for others.
  pub data Inbound : Type 0 where
    message : ℕ → Option ℤ → Option Cooldown → Message → Inbound
    elsewhere : (World redis → World redis) → Inbound

  abbrev pub State : Type 0
  State = Session × World redis

  module _ (user_id conn : ℕ) where
    -- leaveWithFreshCtx, where a mode was joined.
    unfoldable pub leave_current : State → World redis
    leave_current (s, w) = if s.current_mode == "" then w else leave redis user_id s.current_mode w

    abbrev pub join_answer : String → Session → Result Fault (Unit {0}) × World redis → State
    join_answer mode s (ok _, w) = (record s { current_mode = mode }, w)
    join_answer mode s (err e, w) = (join_error e s, w)

    unfoldable pub on_join : ℕ → Option ℤ → Option Cooldown → Message → State → State
    on_join now level_reply cooldown_reply msg (s, w) =
        let player : Player = record {
          user_id = user_id;
          mode = msg.mode;
          level = msg.level;
          enqueued_at = now;
        } in
        join_answer msg.mode s
          (join redis level_reply cooldown_reply conn player (leave_current (s, w)))

    unfoldable pub receive : Inbound → State → State
    receive (message now level_reply cooldown_reply msg) (s, w) =
        if msg.type == "join"
        then on_join now level_reply cooldown_reply msg (s, w)
        else if msg.type == "leave"
        then (record s { current_mode = "" }, leave_current (s, w))
        else (send (error_message "unknown message type") s, w)
    receive (elsewhere act) (s, w) = (s, act w)

    -- The loop of ServeWS; where the messages end, the read fails.
    unfoldable pub serve : List Inbound → State → State
    serve [] (s, w) = (s, leave_current (s, w))
    serve (m ∷ ms) (s, w) = serve ms (receive m (s, w))

abbrev pub arrived : Session
arrived = record { current_mode = ""; sent = [] }
