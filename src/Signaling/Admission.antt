-- ===== src/Signaling/Admission.antt =====
-- Who enters a room: joinScript of services/signaling/internal/api/repository/room_repository.go
-- and the operations over it.
use full.Base.{ℕ, ◌≡◌, ◌≢◌, ◌≤◌, ◌<◌, ◌⊎◌, true, false, String, arith, nat_eq, string_eq}
use full.Base.Db.{Result, ok, err, unavailable, raised, statement}
use full.Base.Redis.Sets.{Sets, Codes}
use full.Signaling.Hub.{register_conn}
use full.Signaling.Service.{
  Fault, room_full, JoinResult, at_capacity, room_key, join_script, join_room, World,
  invalid_room_id, is_valid_room_id, join,
}

module _ (sets : Sets) (room_ttl : ℕ) (key : String) (uid : ℕ) (s : sets.Store) where
  open sets use {sismember, scard, sadd, expire}

  abbrev run : JoinResult × sets.Store
  run = join_script sets room_ttl key uid s

  -- The script says that a room is at capacity exactly for a user who is no member of a room with
  -- two members or more, and then changes nothing; any other answer makes the user a member, who
  -- was one or found a free place. A room with two members at most keeps two at most.
  pub join_script_lem :
      scard s key ≤ 2
      → (scard run.1 key ≤ 2)
        × (((run.0 ≡ at_capacity) × (run.1 ≡ s) × (sismember s key uid ≡ false) × (scard s key ≡ 2))
            ⊎ ((run.0 ≢ at_capacity)
                × (sismember run.1 key uid ≡ true)
                × ((sismember s key uid ≡ true) ⊎ (scard s key < 2))))
  unfolding join_script
  join_script_lem h = ground (
    arith,
    string_eq.same_iff key key,
    sets.scard-expire s key key room_ttl,
    sets.sismember-expire s key key room_ttl uid,
    sets.scard-expire (sadd key uid s) key key room_ttl,
    sets.sismember-expire (sadd key uid s) key key room_ttl uid,
    sets.scard-sadd s key key uid,
    sets.sismember-sadd s key key uid uid,
  )

module _ (sets : Sets) (codes : Codes) (room_ttl code_ttl : ℕ) where
  -- What a join leaves: where it answers, the user had a place, is a member in Redis and is
  -- registered with the connection; otherwise the registry is as it was, and an error of the
  -- code's own changes nothing.
  abbrev pub Joined :
      ℕ
      → ℕ
      → ℕ
      → String
      → String
      → World sets codes room_ttl code_ttl
      → Result Fault (Unit {0}) × World sets codes room_ttl code_ttl
      → Type 0
  Joined now user_id conn room_id mode w (ok _, v) =
      (is_valid_room_id room_id ≡ true)
      × (v.hub ≡ register_conn now room_id mode user_id conn w.hub)
      × (sets.sismember v.members.tables (room_key room_id) user_id ≡ true)
      × (sets.scard v.members.tables (room_key room_id) ≤ 2)
      × ((sets.sismember w.members.tables (room_key room_id) user_id ≡ true)
          ⊎ (sets.scard w.members.tables (room_key room_id) < 2))
  Joined now user_id conn room_id mode w (err unavailable, v) = v.hub ≡ w.hub
  Joined now user_id conn room_id mode w (err (raised e), v) =
      (v.hub ≡ w.hub)
      × (v.members.tables ≡ w.members.tables)
      × (((e ≡ invalid_room_id) × (is_valid_room_id room_id ≡ false))
          ⊎ ((e ≡ room_full)
              × (sets.sismember w.members.tables (room_key room_id) user_id ≡ false)
              × (sets.scard w.members.tables (room_key room_id) ≡ 2)))

  -- A join of a room with two members at most: where it answers, the id is well formed, the user
  -- was a member or found fewer than two, and is a member now, the room still has two at most, and
  -- the connection is registered. A malformed id, or a room that is full for the user, is refused
  -- and nothing changes; a failure of Redis leaves the registry as it was.
  pub join-Joined :
      (now user_id conn : ℕ) (room_id mode : String) (w : World sets codes room_ttl code_ttl)
      → sets.scard w.members.tables (room_key room_id) ≤ 2
      → Joined now user_id conn room_id mode w
          (join sets codes room_ttl code_ttl now user_id conn room_id mode w)
  unfolding join join_room statement
  join-Joined now user_id conn room_id mode w h =
      ground (arith, join_script_lem sets room_ttl (room_key room_id) user_id w.members.tables h)
