-- ===== src/Signaling/Serve.antt =====
-- services/signaling/internal/api/delivery/signaling_handler.go: the life of one connection, after
-- its session was resolved, with the envelopes of domain/signaling.go. A write to a peer that fails
-- is dropped; the keepalive only ends a connection, which here the end of its frames does.
use full.Base.{
  ℕ, Bool, true, false, not, ◌&&◌, ◌||◌, Option, none, some, List, [], ◌∷◌, ◌++◌, String, ◌==◌,
  string_eq, if◌then◌else◌,
}
use full.Base.Db.{Result, ok, err, Error, raised}
use full.Base.Redis.Sets.{Sets, Codes}
use full.Signaling.Departure.{relay}
use full.Signaling.Hub
use full.Signaling.Hub.{Hub, not_member, match_finished, fire_ratings_call}
use full.Signaling.Match.{report_event}
use full.Signaling.Outcomes.{Step, step}
use full.Signaling.Service.{
  Fault, invalid_room_id, room_full, invalid_code, World, join, join_by_code, create_room, leave,
}

-- InboundEnvelope
pub record Envelope : Type 0 where
  pub type : String
  pub room_id : String
  pub mode : String
  pub code : String

-- A frame that is no JSON of the right shape, or its envelope and its bytes; with what the clock
-- and the generators answer while it is handled. Between the frames other connections act.
pub data Inbound : Type 0 where
  garbage : Inbound
  frame : ℕ → Option String → (ℕ → Option String) → Envelope → String → Inbound
  elsewhere : Step → Inbound

pub data Sent : Type 0 where
  error_frame : String → Sent
  room_created : String → String → Sent
  room_joined : String → Sent
  closed : String → Sent

-- The variables of ServeWS: joinedRoomID, whether the connection was closed, and what was written.
pub record Session : Type 0 where
  pub joined_room_id : String
  pub is_closed : Bool
  pub sent : List Sent

abbrev pub send : Sent → Session → Session
send m s = record s { sent = s.sent ++ m ∷ [] }

abbrev pub close : String → Session → Session
close reason s = record s { is_closed = true; sent = s.sent ++ closed reason ∷ [] }

abbrev pub already_in_room : String
already_in_room = "already in a room; join a different room is not allowed"

abbrev pub internal_error : String
internal_error = "internal error"

-- handleJoinError
unfoldable pub handle_join_error : Error Fault → Session → Session
handle_join_error (raised room_full) s = close "room full" (send (error_frame "room is full") s)
handle_join_error (raised invalid_room_id) s =
    send (error_frame "room_id must be non-empty and at most 128 characters") s
handle_join_error e s = send (error_frame internal_error) s

-- handleJoinByCodeError
unfoldable pub handle_join_by_code_error : Error Fault → Session → Session
handle_join_by_code_error (raised invalid_code) s = send (error_frame "invalid or expired code") s
handle_join_by_code_error (raised room_full) s =
    close "room full" (send (error_frame "room is full") s)
handle_join_by_code_error e s = send (error_frame internal_error) s

-- The error of Relay, through safeRelayErrMsg; other errors than these two there are none.
abbrev pub relayed : Option Hub.Fault → Session → Session
relayed none s = s
relayed (some not_member) s = send (error_frame "not a member of this room") s
relayed (some match_finished) s = send (error_frame internal_error) s

-- The error of ReportEvent, through safeReportErrMsg.
abbrev pub reported : Option Hub.Fault → Session → Session
reported none s = s
reported (some not_member) s = send (error_frame "not a member of this room") s
reported (some match_finished) s = send (error_frame "match outcome already decided") s

-- fireRatingsCall, where ReportEvent decided the match.
abbrev pub fired : ℕ → String → Option (ℕ × ℕ) → Hub → Hub
fired now room_id none h = h
fired now room_id (some (winner_id, loser_id)) h =
    fire_ratings_call now room_id winner_id loser_id h

module _ (sets : Sets) (codes : Codes) (room_ttl code_ttl user_id conn : ℕ) where
  abbrev pub State : Type 0
  State = Session × World sets codes room_ttl code_ttl

  abbrev pub join_answer :
      String → Session → Result Fault (Unit {0}) × World sets codes room_ttl code_ttl → State
  join_answer room_id s (ok _, w) = (record s { joined_room_id = room_id }, w)
  join_answer room_id s (err e, w) = (handle_join_error e s, w)

  unfoldable pub on_join : ℕ → Envelope → State → State
  on_join now env (s, w) =
      if not (s.joined_room_id == "") && not (env.room_id == s.joined_room_id)
      then (send (error_frame already_in_room) s, w)
      else join_answer env.room_id s
          (join sets codes room_ttl code_ttl now user_id conn env.room_id env.mode w)

  abbrev pub create_answer :
      Session → Result Fault (String × String) × World sets codes room_ttl code_ttl → State
  create_answer s (ok (room_id, code), w) =
      (send (room_created room_id code) (record s { joined_room_id = room_id }), w)
  create_answer s (err e, w) = (send (error_frame internal_error) s, w)

  -- handleCreateRoom
  unfoldable pub on_create_room : ℕ → Option String → (ℕ → Option String) → State → State
  on_create_room now room_id generated (s, w) =
      if not (s.joined_room_id == "")
      then (send (error_frame already_in_room) s, w)
      else create_answer s
          (create_room sets codes room_ttl code_ttl now user_id conn room_id generated w)

  abbrev pub code_answer :
      Session → Result Fault String × World sets codes room_ttl code_ttl → State
  code_answer s (ok room_id, w) =
      (send (room_joined room_id) (record s { joined_room_id = room_id }), w)
  code_answer s (err e, w) = (handle_join_by_code_error e s, w)

  -- handleJoinRoom
  unfoldable pub on_join_room : ℕ → String → State → State
  on_join_room now code (s, w) =
      if not (s.joined_room_id == "")
      then (send (error_frame already_in_room) s, w)
      else code_answer s (join_by_code sets codes room_ttl code_ttl now user_id conn code w)

  unfoldable pub on_relay : String → String → State → State
  on_relay room_id raw (s, w) =
      let out = relay user_id room_id raw w.hub in (relayed out.0 s, record w { hub = out.1 })

  unfoldable pub on_report : ℕ → String → State → State
  on_report now room_id (s, w) =
      let out = report_event now user_id room_id w.hub in
      (reported out.0 s, record w { hub = fired now room_id out.1 out.2 })

  -- The switch on the type of a frame.
  unfoldable pub dispatch :
      ℕ → Option String → (ℕ → Option String) → Envelope → String → State → State
  dispatch now room_id generated env raw (s, w) =
      if env.type == "join"
      then on_join now env (s, w)
      else if env.type == "create_room"
      then on_create_room now room_id generated (s, w)
      else if env.type == "join_room"
      then on_join_room now env.code (s, w)
      else if env.type == "sdp" || env.type == "ice"
      then on_relay env.room_id raw (s, w)
      else if env.type == "blink" || env.type == "face_lost"
      then on_report now env.room_id (s, w)
      else (send (error_frame "unknown message type") s, w)

  unfoldable pub receive : Inbound → State → State
  receive garbage (s, w) = (send (error_frame "invalid JSON") s, w)
  receive (frame now room_id generated env raw) (s, w) =
      dispatch now room_id generated env raw (s, w)
  receive (elsewhere other) (s, w) = (s, record w { hub = step other w.hub })

  -- leaveOnDisconnect
  unfoldable pub leave_on_disconnect : ℕ → State → State
  leave_on_disconnect now (s, w) =
      if s.joined_room_id == ""
      then (s, w)
      else (s, leave sets codes room_ttl code_ttl now user_id s.joined_room_id w)

  -- The loop of ServeWS over the frames that arrive; at their end, or once the connection is
  -- closed, the next read fails. `now` is what the clock shows then.
  unfoldable pub serve : ℕ → List Inbound → State → State
  serve now [] (s, w) = leave_on_disconnect now (s, w)
  serve now (m ∷ ms) (s, w) =
      let rest = serve now ms (receive m (s, w)) in
      if s.is_closed then leave_on_disconnect now (s, w) else rest

  abbrev pub arrived : Session
  arrived = record { joined_room_id = ""; is_closed = false; sent = [] }
