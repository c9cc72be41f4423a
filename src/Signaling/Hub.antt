-- ===== src/Signaling/Hub.antt =====
-- services/signaling/internal/api/service/signaling_service.go: the in-process registry under its
-- mutex. A connection is a handle; times are nanoseconds. A timer that was started may call
-- resolveTimeout at any later time, stopped or not, so timers are no part of the state. The
-- outcome is sent after the mutex is released; here that is part of the section that decides it.
use full.Base.{
  ℕ, ◌-◌, ◌/◌, Bool, true, false, not, ◌&&◌, Option, none, some, List, [], ◌∷◌, ◌++◌, String,
  length, ◌==◌, nat_eq, string_eq, if◌then◌else◌,
}
use full.Base.Dict
use full.Base.Dict.{Dict}

-- blinkReport
pub record Report : Type 0 where
  pub user_id : ℕ
  pub received_at : ℕ

-- arbitrationState, but its timer.
pub record Arbitration : Type 0 where
  pub first_report : Option Report
  pub decided : Bool

-- ApplyResultRequest
pub record ApplyResult : Type 0 where
  pub winner_id : ℕ
  pub loser_id : ℕ
  pub mode : String
  pub duration_ms : ℕ

-- What is sent: an outcome of a room to some connections, peer_left, a raw frame; or a close.
pub data Act : Type 0 where
  outcome : String → List ℕ → ℕ → ℕ → Act
  peer_left : ℕ → Act
  relayed : ℕ → String → Act
  closed : ℕ → Act

-- The maps of signalingService, what was sent, and the calls of the ratings service.
pub record Hub : Type 0 where
  pub rooms : Dict String (Dict ℕ ℕ)
  pub arbitrations : Dict String Arbitration
  pub room_modes : Dict String String
  pub battle_start : Dict String ℕ
  pub room_codes : Dict String String
  pub acts : List Act
  pub calls : List ApplyResult

pub data Fault : Type 0 where
  not_member match_finished : Fault

abbrev pub mode_ranked : String
mode_ranked = "ranked"

abbrev pub mode_unranked : String
mode_unranked = "unranked"

abbrev pub exists : {A : Type 0} → Option A → Bool
exists none = false
exists (some a) = true

abbrev pub or_empty : Option (Dict ℕ ℕ) → Dict ℕ ℕ
or_empty none = []
or_empty (some m) = m

abbrev pub members : String → Hub → Dict ℕ ℕ
members room_id h = or_empty (Dict.get h.rooms room_id)

abbrev pub or_fresh : Option Arbitration → Arbitration
or_fresh none = record { first_report = none; decided = false }
or_fresh (some a) = a

abbrev pub arbitration : String → Hub → Arbitration
arbitration room_id h = or_fresh (Dict.get h.arbitrations room_id)

-- collectConns
unfoldable pub collect_conns : Dict ℕ ℕ → List ℕ
collect_conns [] = []
collect_conns ((u, conn) ∷ ms) = conn ∷ collect_conns ms

-- The members but one user.
unfoldable pub peers_of : ℕ → Dict ℕ ℕ → Dict ℕ ℕ
peers_of user_id [] = []
peers_of user_id ((u, conn) ∷ ms) =
    let rest = peers_of user_id ms in if u == user_id then rest else (u, conn) ∷ rest

-- registerConn; `now` is what the clock shows.
unfoldable pub register_conn : ℕ → String → String → ℕ → ℕ → Hub → Hub
register_conn now room_id mode user_id conn h =
    let joined = Dict.put (members room_id h) user_id conn in
    let full = length joined == 2 && not (exists (Dict.get h.battle_start room_id)) in
    record h {
      rooms = Dict.put h.rooms room_id joined;
      room_modes =
          (if exists (Dict.get h.rooms room_id)
            then h.room_modes
            else Dict.put h.room_modes room_id mode);
      battle_start = (if full then Dict.put h.battle_start room_id now else h.battle_start);
    }

-- The longest time.Duration, in milliseconds: the time since a zero time.
abbrev pub longest_ms : ℕ
longest_ms = 9223372036854

abbrev pub since_ms : ℕ → Option ℕ → ℕ
since_ms now none = longest_ms
since_ms now (some start) = (now - start) / 1000000

abbrev pub mode_of : Option String → String
mode_of none = ""
mode_of (some m) = m

-- fireRatingsCall: a mutex section of its own.
unfoldable pub fire_ratings_call : ℕ → String → ℕ → ℕ → Hub → Hub
fire_ratings_call now room_id winner_id loser_id h =
    let mode = mode_of (Dict.get h.room_modes room_id) in
    if not (mode == mode_ranked) then h else record h {
      calls =
          h.calls
          ++ record {
            winner_id = winner_id;
            loser_id = loser_id;
            mode = mode;
            duration_ms = since_ms now (Dict.get h.battle_start room_id);
          }
            ∷ [];
    }
