-- ===== src/Signaling/Registry.antt =====
-- Where the registry of services/signaling/internal/api/service/signaling_service.go has a user's
-- connection, after each of its operations.
use full.Base.{
  ℕ, ◌≡◌, not, ◌&&◌, Option, none, some, String, arith, ◌==◌, nat_eq, string_eq, if◌then◌else◌,
}
use full.Base.Dict
use full.Base.Dict.{Dict, get-put, get-remove}
use full.Signaling.Departure
use full.Signaling.Departure.{relay}
use full.Signaling.Hub.{Hub, members, register_conn, fire_ratings_call}
use full.Signaling.Match.{report_event, resolve_timeout}

-- Where the registry has a user's connection.
unfoldable pub conn_in : String → ℕ → Hub → Option ℕ
conn_in r user_id h = Dict.get (members r h) user_id

pub conn_in-register :
    (now : ℕ) (room_id mode : String) (v c : ℕ) (h : Hub) (r : String) (u : ℕ)
    → conn_in r u (register_conn now room_id mode v c h)
      ≡ (if room_id == r && v == u then some c else conn_in r u h)
unfolding conn_in register_conn
conn_in-register now room_id mode v c h r u = ground (
  arith,
  get-put h.rooms room_id r (Dict.put (members room_id h) v c),
  get-put (members room_id h) v u c,
  string_eq.same_iff room_id r,
)

pub conn_in-remove :
    (room_id : String) (h k : Hub) (r : String) (u : ℕ)
    → k.rooms ≡ Dict.remove h.rooms room_id
    → conn_in r u k ≡ (if room_id == r then none else conn_in r u h)
unfolding conn_in Dict.get
conn_in-remove room_id h k r u e = ground (arith, e, get-remove h.rooms room_id r)

pub conn_in-leave :
    (now v : ℕ) (room_id : String) (h : Hub) (r : String) (u : ℕ)
    → conn_in r u (Departure.leave now v room_id h)
      ≡ (if not (room_id == "") && room_id == r then none else conn_in r u h)
unfolding conn_in Departure.leave Dict.get
conn_in-leave now v room_id h r u = ground (arith, get-remove h.rooms room_id r)

pub conn_in-rooms :
    (h k : Hub) (r : String) (u : ℕ) → k.rooms ≡ h.rooms → conn_in r u k ≡ conn_in r u h
unfolding conn_in
conn_in-rooms h k r u e = ground (arith, e)

pub relay-rooms :
    (u : ℕ) (room_id raw : String) (h : Hub) → (relay u room_id raw h).1.rooms ≡ h.rooms
unfolding relay
relay-rooms u room_id raw h = ground arith

pub report-rooms :
    (now u : ℕ) (room_id : String) (h : Hub) → (report_event now u room_id h).2.rooms ≡ h.rooms
unfolding report_event
report-rooms now u room_id h = ground arith

pub fire-rooms :
    (now : ℕ) (room_id : String) (w l : ℕ) (h : Hub)
    → (fire_ratings_call now room_id w l h).rooms ≡ h.rooms
unfolding fire_ratings_call
fire-rooms now room_id w l h = ground arith

pub time_out-rooms : (room_id : String) (h : Hub) → (resolve_timeout room_id h).1.rooms ≡ h.rooms
unfolding resolve_timeout
time_out-rooms room_id h = ground arith
