-- ===== src/Base/Redis/Strings.antt =====
-- Redis strings: GET, SET, DEL on the keys of one prefix, and INCR and EXPIRE on counters. A key is
-- a number: the source's keys are a prefix and the decimal text of a user id.
use full.Base.{ℕ, suc, ◌≡◌, Option, none, some, if◌then◌else◌, ◌==◌, nat_eq}

pub record Strings (V : Type 0) : Type 1 where
  pub Store : Type 0
  pub read : Store → ℕ → Option V
  pub set : ℕ → V → Store → Store
  pub del : ℕ → Store → Store
  pub read-set :
      (s : Store) (k j : ℕ) (v : V) → read (set k v s) j ≡ (if k == j then some v else read s j)
  pub read-del : (s : Store) (k j : ℕ) → read (del k s) j ≡ (if k == j then none else read s j)

pub record Counters : Type 1 where
  pub Store : Type 0
  -- 0 where the key is missing.
  pub count : Store → ℕ → ℕ
  pub incr : ℕ → Store → Store
  pub expire : ℕ → Store → Store
  pub count-incr :
      (s : Store) (k j : ℕ) → count (incr k s) j ≡ (if k == j then suc (count s j) else count s j)
  pub count-expire : (s : Store) (k j : ℕ) → count (expire k s) j ≡ count s j
