-- ===== src/Base/Redis/Texts.antt =====
-- Redis strings under text keys: SET with a lifetime, GET and DEL, while no key has expired.
use full.Base.{ℕ, ◌≡◌, Option, none, some, String, if◌then◌else◌, ◌==◌, string_eq}

pub record Texts : Type 1 where
  pub Store : Type 0
  pub read : Store → String → Option String
  pub set : String → String → ℕ → Store → Store
  pub del : String → Store → Store
  pub read-set :
      (s : Store) (k j v : String) (ttl : ℕ)
      → read (set k v ttl s) j ≡ (if k == j then some v else read s j)
  pub read-del : (s : Store) (k j : String) → read (del k s) j ≡ (if k == j then none else read s j)
