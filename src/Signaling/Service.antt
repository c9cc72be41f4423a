-- ===== src/Signaling/Service.antt =====
-- services/signaling/internal/api: room_repository.go, room_code_repository.go and the operations
-- of service/signaling_service.go over both. A failed removal is logged and dropped.
use Prim.Native.Char.{code}
use full.Base.{
  ◌+◌, ltb, ℕ, suc, Bool, true, false, not, ◌&&◌, Option, none, some, String, leb, ◌==◌, nat_eq,
  string_eq, if◌then◌else◌,
}
use full.Base.Dict
use full.Base.Db.{Db, Conn, Result, ok, err, Error, raised, pure, raise, statement, ◌>>=◌}
use full.Base.Redis.Sets.{Sets, Codes}
use full.Base.Text.{◌+++◌}
use full.Signaling.Departure
use full.Signaling.Hub.{Hub, mode_unranked, register_conn, exists}

pub data Fault : Type 0 where
  invalid_room_id room_full invalid_code code_not_found attempts_exhausted no_room_id no_code :
      Fault

-- JoinResult
pub data JoinResult : Type 0 where
  joined already_member at_capacity : JoinResult

abbrev pub room_key : String → String
room_key room_id = "room:" +++ room_id +++ ":members"

abbrev pub room_code_key : String → String
room_code_key code = "roomcode:" +++ code

-- len of a Go string: the bytes of its UTF-8 text.
abbrev pub utf8_width : ℕ → ℕ
utf8_width c = if ltb c 128 then 1 else if ltb c 2048 then 2 else if ltb c 65536 then 3 else 4

abbrev pub count_bytes : String → ℕ
count_bytes String.[] = 0
count_bytes (String.◌∷◌ c s) = utf8_width (code c) + count_bytes s

-- ValidateRoomID
unfoldable pub is_valid_room_id : String → Bool
is_valid_room_id room_id = not (room_id == "") && leb (count_bytes room_id) 128

module _ (sets : Sets) (room_ttl : ℕ) where
  open sets use {sismember, scard, sadd, expire}

  -- joinScript, which Redis runs as one command.
  unfoldable pub join_script : String → ℕ → sets.Store → JoinResult × sets.Store
  join_script key uid s =
      if sismember s key uid
      then (already_member, expire key room_ttl s)
      else if leb 2 (scard s key)
      then (at_capacity, s)
      else (joined, expire key room_ttl (sadd key uid s))

  -- roomRepository.Join
  unfoldable pub join_room : String → ℕ → Db Fault sets.Store JoinResult
  join_room room_id user_id = statement (join_script (room_key room_id) user_id)

  -- RemoveRoom
  unfoldable pub remove_room : String → Db Fault sets.Store (Unit {0})
  remove_room room_id = statement (λ s. (tt, sets.del (room_key room_id) s))

module _ (codes : Codes) (code_ttl : ℕ) where
  -- SET NX of one generated code, none where the generator failed.
  abbrev pub try_code : String → Option String → Db Fault codes.Store Bool
  try_code room_id none = raise no_code
  try_code room_id (some code) = statement λ s.
      if exists (codes.read s (room_code_key code))
      then (false, s)
      else (true, codes.set_nx (room_code_key code) room_id code_ttl s)

  abbrev pub code_of : Option String → String
  code_of none = ""
  code_of (some code) = code

  -- The loop of CreateCode; `generated` is what generateCode returns in each attempt.
  unfoldable pub try_codes : ℕ → (ℕ → Option String) → String → Db Fault codes.Store String
  try_codes ℕ.zero generated room_id = raise attempts_exhausted
  try_codes (suc attempts) generated room_id =
      let rest = try_codes attempts (λ n. generated (suc n)) room_id in
      (do
        stored ← try_code room_id (generated 0)
        if stored then pure (code_of (generated 0)) else rest)

  -- CreateCode: maxCreateAttempts is 5.
  unfoldable pub create_code : (ℕ → Option String) → String → Db Fault codes.Store String
  create_code = try_codes 5

  abbrev pub or_code_not_found : Option String → Db Fault codes.Store String
  or_code_not_found none = raise code_not_found
  or_code_not_found (some room_id) = pure room_id

  -- ResolveCode
  unfoldable pub resolve_code : String → Db Fault codes.Store String
  resolve_code code = do
    found ← statement (λ s. (codes.read s (room_code_key code), s))
    or_code_not_found found

  -- RemoveCode
  unfoldable pub remove_code : String → Db Fault codes.Store (Unit {0})
  remove_code code = statement (λ s. (tt, codes.del (room_code_key code) s))

module _ (sets : Sets) (codes : Codes) (room_ttl code_ttl : ℕ) where
  pub record World : Type 0 where
    pub hub : Hub
    pub members : Conn sets.Store
    pub invites : Conn codes.Store

  abbrev pub admitted :
      {A : Type 0}
      → ℕ
      → String
      → String
      → ℕ
      → ℕ
      → A
      → World
      → Result Fault JoinResult × Conn sets.Store
      → Result Fault A × World
  admitted now room_id mode user_id conn a w (err e, c) = (err e, record w { members = c })
  admitted now room_id mode user_id conn a w (ok at_capacity, c) =
      (err (raised room_full), record w { members = c })
  admitted now room_id mode user_id conn a w (ok _, c) =
      (ok a, record w { hub = register_conn now room_id mode user_id conn w.hub; members = c })

  abbrev pub enter : {A : Type 0} → ℕ → String → String → ℕ → ℕ → A → World → Result Fault A × World
  enter now room_id mode user_id conn a w =
      admitted now room_id mode user_id conn a w (join_room sets room_ttl room_id user_id w.members)

  -- Join
  unfoldable pub join : ℕ → ℕ → ℕ → String → String → World → Result Fault (Unit {0}) × World
  join now user_id conn room_id mode w =
      let out = enter now room_id mode user_id conn tt w in
      if is_valid_room_id room_id then out else (err (raised invalid_room_id), w)

  abbrev pub in_join : Error Fault → Error Fault
  in_join (raised code_not_found) = raised invalid_code
  in_join e = e

  abbrev pub resolved :
      ℕ → ℕ → ℕ → World → Result Fault String × Conn codes.Store → Result Fault String × World
  resolved now user_id conn w (err e, c) = (err (in_join e), record w { invites = c })
  resolved now user_id conn w (ok room_id, c) =
      enter now room_id mode_unranked user_id conn room_id (record w { invites = c })

  -- JoinByCode
  unfoldable pub join_by_code : ℕ → ℕ → ℕ → String → World → Result Fault String × World
  join_by_code now user_id conn code w =
      resolved now user_id conn w (resolve_code codes code_ttl code w.invites)

  -- The code stored, or the rollback of the room.
  abbrev pub coded :
      String
      → World
      → Result Fault String × Conn codes.Store
      → Result Fault (String × String) × World
  coded room_id w (ok code, c) = (
    ok (room_id, code),
    record w {
      hub = record w.hub { room_codes = Dict.put w.hub.room_codes room_id code };
      invites = c;
    },
  )
  coded room_id w (err e, c) = (
    err e,
    record {
      hub = record w.hub {
        rooms = Dict.remove w.hub.rooms room_id;
        room_modes = Dict.remove w.hub.room_modes room_id;
        battle_start = Dict.remove w.hub.battle_start room_id;
      };
      members = (remove_room sets room_ttl room_id w.members).1;
      invites = c;
    },
  )

  abbrev pub created :
      (ℕ → Option String)
      → String
      → Result Fault (Unit {0}) × World
      → Result Fault (String × String) × World
  created generated room_id (err e, w) = (err e, w)
  created generated room_id (ok _, w) =
      coded room_id w (create_code codes code_ttl generated room_id w.invites)

  -- CreateRoom; the room id and the codes are what the generators return.
  unfoldable pub create_room :
      ℕ
      → ℕ
      → ℕ
      → Option String
      → (ℕ → Option String)
      → World
      → Result Fault (String × String) × World
  create_room now user_id conn none generated w = (err (raised no_room_id), w)
  create_room now user_id conn (some room_id) generated w =
      created generated room_id (enter now room_id mode_unranked user_id conn tt w)

  abbrev pub without_code : Option String → Conn codes.Store → Conn codes.Store
  without_code none c = c
  without_code (some code) c = (remove_code codes code_ttl code c).1

  -- Leave
  unfoldable pub leave : ℕ → ℕ → String → World → World
  leave now user_id room_id w = if room_id == "" then w else record {
    hub = Departure.leave now user_id room_id w.hub;
    members = (remove_room sets room_ttl room_id w.members).1;
    invites = without_code (Dict.get w.hub.room_codes room_id) w.invites;
  }
