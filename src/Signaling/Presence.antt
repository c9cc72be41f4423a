-- ===== src/Signaling/Presence.antt =====
-- A connection of services/signaling/internal/api/delivery/signaling_handler.go is in one room at
-- most, and in none once it is gone.
use full.Base.{ℕ, ◌≡◌, ◌≢◌, ◌⊎◌, sym, ◌∙◌, some, String, arith, nat_eq, string_eq}
use full.Base.Db.{Conn, Result, ok, err}
use full.Base.Redis.Sets.{Sets, Codes}
use full.Signaling.Departure.{relay}
use full.Signaling.Hub.{Hub, register_conn, fire_ratings_call}
use full.Signaling.Match.{report_event, resolve_timeout}
use full.Signaling.Outcomes.{Step, register, report, time_out, fire, depart, step}
use full.Signaling.Outcomes
use full.Signaling.Service.{Fault, World, JoinResult, joined, already_member, at_capacity, admitted}
use full.Signaling.Invites.{IsNamed}
use full.Signaling.Registry.{
  conn_in, conn_in-register, conn_in-leave, conn_in-rooms, relay-rooms, report-rooms, fire-rooms,
  time_out-rooms,
}

module _ (user_id conn : ℕ) where
  -- The connection is registered in `room_id` only, and that is no empty name.
  abbrev pub IsOnlyIn : String → Hub → Type 0
  IsOnlyIn room_id h = (r : String) → conn_in r user_id h ≡ some conn → (r ≡ room_id) × (r ≢ "")

  pub register-IsOnlyIn :
      (now : ℕ) (room_id mode : String) (h : Hub) (at : String)
      → room_id ≢ ""
      → (at ≡ "") ⊎ (room_id ≡ at)
      → IsOnlyIn at h
      → IsOnlyIn room_id (register_conn now room_id mode user_id conn h)
  register-IsOnlyIn now room_id mode h at n may only r e = ground (
    arith,
    only r,
    conn_in-register now room_id mode user_id conn h r user_id,
    string_eq.same_iff room_id r,
    nat_eq.same_iff user_id user_id,
  )

  pub rooms-IsOnlyIn : (h k : Hub) (at : String) → k.rooms ≡ h.rooms → IsOnlyIn at h → IsOnlyIn at k
  rooms-IsOnlyIn h k at e only r f = only r (sym (conn_in-rooms h k r user_id e) ∙ f)

  -- Another connection acts.
  abbrev pub IsForeign : Step → Type 0
  IsForeign (register now room_id mode v c) = (v ≢ user_id) ⊎ (c ≢ conn)
  IsForeign _ = Unit {0}

  pub step-IsOnlyIn :
      (s : Step) (h : Hub) (at : String) → IsForeign s → IsOnlyIn at h → IsOnlyIn at (step s h)
  unfolding step
  step-IsOnlyIn (register now room_id mode v c) h at other only r e = ground (
    arith,
    only r,
    other,
    conn_in-register now room_id mode v c h r user_id,
    nat_eq.same_iff v user_id,
  )
  step-IsOnlyIn (report now v room_id) h at other only r e =
      rooms-IsOnlyIn h (report_event now v room_id h).2 at (report-rooms now v room_id h) only r e
  step-IsOnlyIn (time_out room_id) h at other only r e =
      rooms-IsOnlyIn h (resolve_timeout room_id h).1 at (time_out-rooms room_id h) only r e
  step-IsOnlyIn (fire now room_id w l) h at other only r e =
      rooms-IsOnlyIn h (fire_ratings_call now room_id w l h) at (fire-rooms now room_id w l h) only
        r e
  step-IsOnlyIn (Outcomes.frame v room_id raw) h at other only r e =
      rooms-IsOnlyIn h (relay v room_id raw h).1 at (relay-rooms v room_id raw h) only r e
  step-IsOnlyIn (depart now v room_id) h at other only r e =
      ground (arith, only r, conn_in-leave now v room_id h r user_id)

module _ (sets : Sets) (codes : Codes) (room_ttl code_ttl user_id conn : ℕ) where
  -- The invariant of ServeWS: the connection is registered in the room that it joined, at most.
  pub record IsPresent (at : String) (w : World sets codes room_ttl code_ttl) : Type 0 where
    pub only : IsOnlyIn user_id conn at w.hub
    pub named : IsNamed codes w.invites.tables

  -- What a join leaves, after it succeeded or failed.
  abbrev pub Joins :
      {A : Type 0}
      → (A → String)
      → String
      → Result Fault A × World sets codes room_ttl code_ttl
      → Type 0
  Joins room_of at (ok a, w) = IsPresent (room_of a) w
  Joins room_of at (err e, w) = IsPresent at w

  pub enter-Joins :
      {A : Type 0} (now : ℕ) (room_id mode : String) (a : A) (room_of : A → String) (at : String)
      (w : World sets codes room_ttl code_ttl) (out : Result Fault JoinResult × Conn sets.Store)
      → room_id ≢ ""
      → (at ≡ "") ⊎ (room_id ≡ at)
      → room_of a ≡ room_id
      → IsPresent at w
      → Joins room_of at
          (admitted sets codes room_ttl code_ttl now room_id mode user_id conn a w out)
  enter-Joins now room_id mode a room_of at w (err e, c) n may same p = record {
    only = p.only;
    named = p.named;
  }
  enter-Joins now room_id mode a room_of at w (ok at_capacity, c) n may same p = record {
    only = p.only;
    named = p.named;
  }
  enter-Joins now room_id mode a room_of at w (ok joined, c) n may same p = rw same record {
    only = register-IsOnlyIn user_id conn now room_id mode w.hub at n may p.only;
    named = p.named;
  }
  enter-Joins now room_id mode a room_of at w (ok already_member, c) n may same p = rw same record {
    only = register-IsOnlyIn user_id conn now room_id mode w.hub at n may p.only;
    named = p.named;
  }
