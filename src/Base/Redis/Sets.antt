-- ===== src/Base/Redis/Sets.antt =====
-- Redis sets of numbers: SISMEMBER, SCARD, SADD, DEL, EXPIRE on a key; and string keys with SET NX,
-- GET and DEL.
use full.Base.{
  ℕ, suc, ◌≡◌, Bool, not, ◌&&◌, ◌||◌, Option, none, some, String, if◌then◌else◌, ◌==◌, nat_eq,
  string_eq,
}

pub record Sets : Type 1 where
  pub Store : Type 0
  pub sismember : Store → String → ℕ → Bool
  pub scard : Store → String → ℕ
  pub sadd : String → ℕ → Store → Store
  pub del : String → Store → Store
  pub expire : String → ℕ → Store → Store
  pub sismember-sadd :
      (s : Store) (k j : String) (u v : ℕ)
      → sismember (sadd k u s) j v ≡ ((k == j && u == v) || sismember s j v)
  pub scard-sadd :
      (s : Store) (k j : String) (u : ℕ)
      → scard (sadd k u s) j
        ≡ (if k == j && not (sismember s k u) then suc (scard s j) else scard s j)
  pub sismember-del :
      (s : Store) (k j : String) (v : ℕ)
      → sismember (del k s) j v ≡ (not (k == j) && sismember s j v)
  pub scard-del : (s : Store) (k j : String) → scard (del k s) j ≡ (if k == j then 0 else scard s j)
  pub sismember-expire :
      (s : Store) (k j : String) (t v : ℕ) → sismember (expire k t s) j v ≡ sismember s j v
  pub scard-expire : (s : Store) (k j : String) (t : ℕ) → scard (expire k t s) j ≡ scard s j

pub record Codes : Type 1 where
  pub Store : Type 0
  pub read : Store → String → Option String
  pub set_nx : String → String → ℕ → Store → Store
  pub del : String → Store → Store
  pub read-set_nx :
      (s : Store) (k j v : String) (t : ℕ)
      → read s k ≡ none
      → read (set_nx k v t s) j ≡ (if k == j then some v else read s j)
  pub read-del : (s : Store) (k j : String) → read (del k s) j ≡ (if k == j then none else read s j)
