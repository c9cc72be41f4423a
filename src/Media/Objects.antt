-- ===== src/Media/Objects.antt =====
-- The object store behind services/media/internal/api/repository/object_store.go: PutObject,
-- RemoveObject and GetObject of a bucket, and what the service relies on. A stored object is a
-- number that stands for its bytes.
use full.Base.{ℕ, ◌≡◌, Option, none, some, String, if◌then◌else◌, ◌==◌, string_eq}

pub record Objects : Type 1 where
  pub Store : Type 0
  pub read : Store → String → Option ℕ
  pub put : String → ℕ → Store → Store
  pub remove : String → Store → Store
  pub read-put :
      (s : Store) (k j : String) (body : ℕ)
      → read (put k body s) j ≡ (if k == j then some body else read s j)
  pub read-remove :
      (s : Store) (k j : String) → read (remove k s) j ≡ (if k == j then none else read s j)
