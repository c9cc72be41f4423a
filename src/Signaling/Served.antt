-- ===== src/Signaling/Served.antt =====
-- Each frame of services/signaling/internal/api/delivery/signaling_handler.go leaves the connection
-- registered in the room that the handler knows of, at most.
use full.Base.{
  ℕ, ◌≡◌, ◌≢◌, ◌⊎◌, refl, sym, ◌∙◌, not, ◌&&◌, Option, none, some, List, [], ◌∷◌, String, arith,
  ◌==◌, nat_eq, string_eq, Bool-cases, inl, inr,
}
use mathlib.Core.Path.{subst}
use full.Base.Db.{Result, ok, err, Error}
use full.Base.Redis.Sets.{Sets, Codes}
use full.Signaling.Departure.{relay}
use full.Signaling.Hub.{Hub}
use full.Signaling.Match.{report_event}
use full.Signaling.Service.{Fault, World, join, join_by_code, create_room}
use full.Signaling.Serve.{
  Envelope, Inbound, garbage, frame, elsewhere, Session, handle_join_error,
  handle_join_by_code_error, State, fired, join_answer, create_answer, code_answer, on_join,
  on_create_room, on_join_room, on_relay, on_report, relayed, reported, dispatch, receive,
}
use full.Signaling.Registry.{relay-rooms, report-rooms, fire-rooms}
use full.Signaling.Presence.{IsForeign, IsPresent, Joins, rooms-IsOnlyIn, step-IsOnlyIn}
use full.Signaling.Joined.{join-Joins, create_room-Joins, join_by_code-Joins}

-- The generator of room ids gives no empty one, and what happens elsewhere is done by other
-- connections.
abbrev pub IsFair : ℕ → ℕ → Inbound → Type 0
IsFair user_id conn garbage = Unit {0}
IsFair user_id conn (frame now room_id generated env raw) = room_id ≢ some ""
IsFair user_id conn (elsewhere other) = IsForeign user_id conn other

abbrev pub AreFair : ℕ → ℕ → List Inbound → Type 0
AreFair user_id conn [] = Unit {0}
AreFair user_id conn (m ∷ ms) = IsFair user_id conn m × AreFair user_id conn ms

error-joined :
    (e : Error Fault) (s : Session) → (handle_join_error e s).joined_room_id ≡ s.joined_room_id
unfolding handle_join_error
error-joined e s = ground arith

code_error-joined :
    (e : Error Fault) (s : Session)
    → (handle_join_by_code_error e s).joined_room_id ≡ s.joined_room_id
unfolding handle_join_by_code_error
code_error-joined e s = ground arith

module _ (sets : Sets) (codes : Codes) (room_ttl code_ttl user_id conn : ℕ) where
  abbrev pub Service : Type 0
  Service = World sets codes room_ttl code_ttl

  abbrev pub Served : Type 0
  Served = State sets codes room_ttl code_ttl user_id conn

  abbrev pub IsSound : Served → Type 0
  IsSound (s, w) = IsPresent sets codes room_ttl code_ttl user_id conn s.joined_room_id w

  join_answer-IsSound :
      (room_id : String) (s : Session) (out : Result Fault (Unit {0}) × Service)
      → Joins sets codes room_ttl code_ttl user_id conn (λ _. room_id) s.joined_room_id out
      → IsSound (join_answer sets codes room_ttl code_ttl user_id conn room_id s out)
  join_answer-IsSound room_id s (ok _, w) p = p
  join_answer-IsSound room_id s (err e, w) p = rw (error-joined e s) p

  on_join-IsSound :
      (now : ℕ) (env : Envelope) (s : Session) (w : Service)
      → IsSound (s, w)
      → IsSound (on_join sets codes room_ttl code_ttl user_id conn now env (s, w))
  unfolding on_join
  on_join-IsSound now env s w p =
      let at = s.joined_room_id in
      elim (Bool-cases (not (at == "") && not (env.room_id == at))) [
        | inl other ↦ rw other p
        | inr same ↦
            let may : (at ≡ "") ⊎ (env.room_id ≡ at) =
              ground (arith, same, string_eq.same_iff at "", string_eq.same_iff env.room_id at) in
            rw same (
              join_answer-IsSound env.room_id s
                (join sets codes room_ttl code_ttl now user_id conn env.room_id env.mode w)
                (join-Joins sets codes room_ttl code_ttl user_id conn now env.room_id env.mode at w
                  may p))
      ]

  create_answer-IsSound :
      (s : Session) (out : Result Fault (String × String) × Service)
      → Joins sets codes room_ttl code_ttl user_id conn (λ x. x.0) s.joined_room_id out
      → IsSound (create_answer sets codes room_ttl code_ttl user_id conn s out)
  create_answer-IsSound s (ok (room_id, code), w) p = p
  create_answer-IsSound s (err e, w) p = p

  on_create_room-IsSound :
      (now : ℕ) (room_id : Option String) (generated : ℕ → Option String) (s : Session)
      (w : Service)
      → room_id ≢ some ""
      → IsSound (s, w)
      → IsSound
          (on_create_room sets codes room_ttl code_ttl user_id conn now room_id generated (s, w))
  unfolding on_create_room
  on_create_room-IsSound now room_id generated s w n p =
      let at = s.joined_room_id in
      elim (Bool-cases (at == "")) [
        | inr in_room ↦ rw in_room p
        | inl free ↦
            let e : at ≡ "" = (string_eq.same_iff at "").0 free in
            let out =
              create_room sets codes room_ttl code_ttl now user_id conn room_id generated w in
            let joins =
              create_room-Joins sets codes room_ttl code_ttl user_id conn now room_id generated w n
                (subst (λ r. IsPresent sets codes room_ttl code_ttl user_id conn r w) e p) in
            rw free (
              create_answer-IsSound s out (
                subst (λ r. Joins sets codes room_ttl code_ttl user_id conn (λ x. x.0) r out)
                  (sym e) joins))
      ]

  code_answer-IsSound :
      (s : Session) (out : Result Fault String × Service)
      → Joins sets codes room_ttl code_ttl user_id conn (λ r. r) s.joined_room_id out
      → IsSound (code_answer sets codes room_ttl code_ttl user_id conn s out)
  code_answer-IsSound s (ok room_id, w) p = p
  code_answer-IsSound s (err e, w) p = rw (code_error-joined e s) p

  on_join_room-IsSound :
      (now : ℕ) (code : String) (s : Session) (w : Service)
      → IsSound (s, w)
      → IsSound (on_join_room sets codes room_ttl code_ttl user_id conn now code (s, w))
  unfolding on_join_room
  on_join_room-IsSound now code s w p =
      let at = s.joined_room_id in
      elim (Bool-cases (at == "")) [
        | inr in_room ↦ rw in_room p
        | inl free ↦
            let e : at ≡ "" = (string_eq.same_iff at "").0 free in
            let out = join_by_code sets codes room_ttl code_ttl now user_id conn code w in
            let joins =
              join_by_code-Joins sets codes room_ttl code_ttl user_id conn now code w
                (subst (λ r. IsPresent sets codes room_ttl code_ttl user_id conn r w) e p) in
            rw free (
              code_answer-IsSound s out (
                subst (λ r. Joins sets codes room_ttl code_ttl user_id conn (λ r. r) r out) (sym e)
                  joins))
      ]

  -- What leaves the rooms as they are.
  rooms-IsSound :
      (s t : Session) (w : Service) (h : Hub)
      → t.joined_room_id ≡ s.joined_room_id
      → h.rooms ≡ w.hub.rooms
      → IsSound (s, w)
      → IsSound (t, record w { hub = h })
  rooms-IsSound s t w h same e p = rw same record {
    only = rooms-IsOnlyIn user_id conn w.hub h s.joined_room_id e p.only;
    named = p.named;
  }

  on_relay-IsSound :
      (room_id raw : String) (s : Session) (w : Service)
      → IsSound (s, w)
      → IsSound (on_relay sets codes room_ttl code_ttl user_id conn room_id raw (s, w))
  unfolding on_relay
  on_relay-IsSound room_id raw s w p =
      let out = relay user_id room_id raw w.hub in
      rooms-IsSound s (relayed out.0 s) w out.1 (ground arith)
        (relay-rooms user_id room_id raw w.hub) p

  fired-rooms :
      (now : ℕ) (room_id : String) (o : Option (ℕ × ℕ)) (h : Hub)
      → (fired now room_id o h).rooms ≡ h.rooms
  fired-rooms now room_id none h = refl
  fired-rooms now room_id (some (winner_id, loser_id)) h =
      fire-rooms now room_id winner_id loser_id h

  on_report-IsSound :
      (now : ℕ) (room_id : String) (s : Session) (w : Service)
      → IsSound (s, w)
      → IsSound (on_report sets codes room_ttl code_ttl user_id conn now room_id (s, w))
  unfolding on_report
  on_report-IsSound now room_id s w p =
      let out = report_event now user_id room_id w.hub in
      rooms-IsSound s (reported out.0 s) w (fired now room_id out.1 out.2) (ground arith)
        (fired-rooms now room_id out.1 out.2 ∙ report-rooms now user_id room_id w.hub) p

  pub receive-IsSound :
      (m : Inbound) (s : Session) (w : Service)
      → IsFair user_id conn m
      → IsSound (s, w)
      → IsSound (receive sets codes room_ttl code_ttl user_id conn m (s, w))
  unfolding receive dispatch
  receive-IsSound garbage s w fair p = p
  receive-IsSound (elsewhere other) s w fair p = record {
    only = step-IsOnlyIn user_id conn other w.hub s.joined_room_id fair p.only;
    named = p.named;
  }
  receive-IsSound (frame now room_id generated env raw) s w fair p = ground (
    arith,
    on_join-IsSound now env s w p,
    on_create_room-IsSound now room_id generated s w fair p,
    on_join_room-IsSound now env.code s w p,
    on_relay-IsSound env.room_id raw s w p,
    on_report-IsSound now env.room_id s w p,
  )
