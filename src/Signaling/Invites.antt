-- ===== src/Signaling/Invites.antt =====
-- The codes of services/signaling/internal/api/repository/room_code_repository.go name rooms.
use full.Base.{
  ℕ, zero, suc, ◌≡◌, ◌≢◌, Bool, true, false, Option, none, some, String, arith, nat_eq, string_eq,
  if◌then◌else◌, Option-cases, inl, inr,
}
use full.Base.Db.{Conn, ok, pure, raise, statement, ◌>>=◌}
use full.Base.Db.Keeps.{Keeps, Keeps-pure, Keeps-raise, Keeps-statement, Keeps-bind, Keeps-if}
use full.Base.Redis.Sets.{Codes}
use full.Signaling.Hub.{exists}
use full.Signaling.Service.{room_code_key, try_code, try_codes, create_code, resolve_code}

-- No stored code stands for the empty room id.
abbrev pub IsNamed : (codes : Codes) → codes.Store → Type 0
IsNamed codes s = (k : String) → codes.read s k ≢ some ""

module _ (codes : Codes) (code_ttl : ℕ) where
  store_code : String → String → codes.Store → Bool × codes.Store
  store_code room_id key s =
      if exists (codes.read s key) then (false, s) else (true, codes.set_nx key room_id code_ttl s)

  store_code-IsNamed :
      (room_id key : String) (s : codes.Store)
      → room_id ≢ ""
      → IsNamed codes s
      → IsNamed codes (store_code room_id key s).1
  unfolding store_code
  store_code-IsNamed room_id key s n named k = elim (Option-cases (codes.read s key)) [
    | inl e ↦ ground (arith, e, n, named k, codes.read-set_nx s key k room_id code_ttl e)
    | inr (v, e) ↦ ground (arith, e, named k)
  ]

  try_code-Keeps :
      (room_id : String) (code : Option String)
      → room_id ≢ ""
      → Keeps (IsNamed codes) (try_code codes code_ttl room_id code)
  unfolding store_code
  try_code-Keeps room_id none n = Keeps-raise (IsNamed codes) _
  try_code-Keeps room_id (some code) n =
      Keeps-statement (IsNamed codes) (store_code room_id (room_code_key code))
        (λ s. store_code-IsNamed room_id (room_code_key code) s n)

  try_codes-Keeps :
      (attempts : ℕ) (generated : ℕ → Option String) (room_id : String)
      → room_id ≢ ""
      → Keeps (IsNamed codes) (try_codes codes code_ttl attempts generated room_id)
  unfolding try_codes
  try_codes-Keeps zero generated room_id n = Keeps-raise (IsNamed codes) _
  try_codes-Keeps (suc attempts) generated room_id n =
      let rest = try_codes-Keeps attempts (λ m. generated (suc m)) room_id n in
      Keeps-bind (IsNamed codes) (try_code codes code_ttl room_id (generated 0)) _
        (try_code-Keeps room_id (generated 0) n)
        (λ stored. Keeps-if (IsNamed codes) stored _ _ (Keeps-pure (IsNamed codes) _) rest)

  pub create_code-IsNamed :
      (generated : ℕ → Option String) (room_id : String) (c : Conn codes.Store)
      → room_id ≢ ""
      → IsNamed codes c.tables
      → IsNamed codes (create_code codes code_ttl generated room_id c).1.tables
  unfolding create_code
  create_code-IsNamed generated room_id c n = (try_codes-Keeps 5 generated room_id n).keeps c

  -- A code that is resolved gives a name.
  pub resolve_code-named :
      (code : String) (c : Conn codes.Store)
      → IsNamed codes c.tables
      → ((resolve_code codes code_ttl code c).1.tables ≡ c.tables)
        × ((resolve_code codes code_ttl code c).0 ≢ ok "")
  unfolding resolve_code statement pure raise ◌>>=◌
  resolve_code-named code c named = ground (arith, named (room_code_key code))
