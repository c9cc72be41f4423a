-- ===== src/Signaling/Joined.antt =====
-- Joining a room in services/signaling/internal/api/service/signaling_service.go, and where the
-- connection is registered after it.
use full.Base.{
  ℕ, ◌≡◌, ◌≢◌, ◌⊎◌, refl, ap, true, Option, none, some, String, arith, nat_eq, string_eq,
  Bool-cases, inl, inr,
}
use full.Base.Db.{Conn, Result, ok, err}
use full.Base.Redis.Sets.{Sets, Codes}
use full.Signaling.Hub.{mode_unranked}
use full.Signaling.Service.{
  Fault, World, is_valid_room_id, join, join_by_code, create_room, enter, join_room, create_code,
  resolve_code, coded, created, resolved,
}
use full.Signaling.Invites.{IsNamed, create_code-IsNamed, resolve_code-named}
use full.Signaling.Registry.{conn_in-remove}
use full.Signaling.Presence.{IsPresent, Joins, enter-Joins, rooms-IsOnlyIn}

named_room : (room_id : String) → is_valid_room_id room_id ≡ true → room_id ≢ ""
unfolding is_valid_room_id
named_room room_id h = ground (arith, string_eq.same_iff room_id "")

module _ (sets : Sets) (codes : Codes) (room_ttl code_ttl user_id conn : ℕ) where
  abbrev Service : Type 0
  Service = World sets codes room_ttl code_ttl

  abbrev Entered : {A : Type 0} → (A → String) → String → Result Fault A × Service → Type 0
  Entered room_of at out = Joins sets codes room_ttl code_ttl user_id conn room_of at out

  abbrev Present : String → Service → Type 0
  Present at w = IsPresent sets codes room_ttl code_ttl user_id conn at w

  pub join-Joins :
      (now : ℕ) (room_id mode at : String) (w : Service)
      → (at ≡ "") ⊎ (room_id ≡ at)
      → Present at w
      → Entered
          (λ _. room_id)
          at
          (join sets codes room_ttl code_ttl now user_id conn room_id mode w)
  unfolding join
  join-Joins now room_id mode at w may p = elim (Bool-cases (is_valid_room_id room_id)) [
    | inl valid ↦ rw valid (
        enter-Joins sets codes room_ttl code_ttl user_id conn now room_id mode tt (λ _. room_id) at
          w (join_room sets room_ttl room_id user_id w.members) (named_room room_id valid) may refl
          p)
    | inr invalid ↦ rw invalid p
  ]

  coded-Joins :
      (room_id : String) (w : Service) (out : Result Fault String × Conn codes.Store)
      → Present room_id w
      → IsNamed codes out.1.tables
      → Entered (λ x. x.0) "" (coded sets codes room_ttl code_ttl room_id w out)
  coded-Joins room_id w (ok code, c) p named = record {
    only = rooms-IsOnlyIn user_id conn w.hub _ room_id refl p.only;
    named = named;
  }
  coded-Joins room_id w (err e, c) p named = record {
    only = λ r at.
        let k = (coded sets codes room_ttl code_ttl room_id w (err e, c)).1.hub in
        ground (
          arith,
          p.only r,
          at,
          conn_in-remove room_id w.hub k r user_id refl,
          string_eq.same_iff room_id r,
        );
    named = named;
  }

  created-Joins :
      (generated : ℕ → Option String) (room_id : String) (out : Result Fault (Unit {0}) × Service)
      → room_id ≢ ""
      → Entered (λ _. room_id) "" out
      → Entered (λ x. x.0) "" (created sets codes room_ttl code_ttl generated room_id out)
  created-Joins generated room_id (err e, w) n p = p
  created-Joins generated room_id (ok _, w) n p =
      coded-Joins room_id w (create_code codes code_ttl generated room_id w.invites) p
        (create_code-IsNamed codes code_ttl generated room_id w.invites n p.named)

  pub create_room-Joins :
      (now : ℕ) (room_id : Option String) (generated : ℕ → Option String) (w : Service)
      → room_id ≢ some ""
      → Present "" w
      → Entered
          (λ x. x.0)
          ""
          (create_room sets codes room_ttl code_ttl now user_id conn room_id generated w)
  unfolding create_room
  create_room-Joins now none generated w n p = p
  create_room-Joins now (some room_id) generated w n p =
      let named : room_id ≢ "" = λ e. n (ap some e) in
      created-Joins generated room_id
        (enter sets codes room_ttl code_ttl now room_id mode_unranked user_id conn tt w) named
        (enter-Joins sets codes room_ttl code_ttl user_id conn now room_id mode_unranked tt
          (λ _. room_id) "" w (join_room sets room_ttl room_id user_id w.members) named (inl refl)
          refl p)

  resolved-Joins :
      (now : ℕ) (w : Service) (out : Result Fault String × Conn codes.Store)
      → out.0 ≢ ok ""
      → IsNamed codes out.1.tables
      → Present "" w
      → Entered (λ r. r) "" (resolved sets codes room_ttl code_ttl now user_id conn w out)
  resolved-Joins now w (err e, c) n named p = record { only = p.only; named = named }
  resolved-Joins now w (ok room_id, c) n named p =
      let v : Service = record w { invites = c } in
      enter-Joins sets codes room_ttl code_ttl user_id conn now room_id mode_unranked room_id
        (λ r. r) "" v (join_room sets room_ttl room_id user_id w.members) (λ e. n (ap ok e))
        (inl refl) refl (record { only = p.only; named = named })

  pub join_by_code-Joins :
      (now : ℕ) (code : String) (w : Service)
      → Present "" w
      → Entered (λ r. r) "" (join_by_code sets codes room_ttl code_ttl now user_id conn code w)
  unfolding join_by_code
  join_by_code-Joins now code w p =
      let (same, some_name) = resolve_code-named codes code_ttl code w.invites p.named in
      resolved-Joins now w (resolve_code codes code_ttl code w.invites) some_name (rw same p.named)
        p
