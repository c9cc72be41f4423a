-- ===== src/Base/Redis/Hash.antt =====
-- Redis hashes: HSET, HDEL, HEXISTS, HGETALL, EXPIRE on a key with fields. Fields are numbers: the
-- source's fields are the decimal texts of user ids.
use full.Base.{
  ℕ, ◌≡◌, Bool, true, false, Option, none, some, List, [], ◌∷◌, ◌&&◌, String, ◌⊎◌, if◌then◌else◌,
  ◌==◌, nat_eq, string_eq,
}

module _ {V : Type 0} where
  abbrev pub Listed : ℕ → V → List (ℕ × V) → Type 0
  Listed f v [] = ⊥
  Listed f v ((g, w) ∷ r) = ((f ≡ g) × (v ≡ w)) ⊎ Listed f v r

pub record Hash (V : Type 0) : Type 1 where
  pub Store : Type 0
  -- The value of a field, if the field exists.
  pub hget : Store → String → ℕ → Option V
  pub hset : String → ℕ → V → Store → Store
  pub hdel : String → ℕ → Store → Store
  pub expire : String → ℕ → Store → Store
  pub hgetall : Store → String → List (ℕ × V)
  pub hget-hset :
      (s : Store) (k j : String) (f g : ℕ) (v : V)
      → hget (hset k f v s) j g ≡ (if k == j && f == g then some v else hget s j g)
  pub hget-hdel :
      (s : Store) (k j : String) (f g : ℕ)
      → hget (hdel k f s) j g ≡ (if k == j && f == g then none else hget s j g)
  pub hget-expire : (s : Store) (k j : String) (t g : ℕ) → hget (expire k t s) j g ≡ hget s j g
  pub hget_of_listed :
      (s : Store) (k : String) (f : ℕ) (v : V) → Listed f v (hgetall s k) → hget s k f ≡ some v
  pub listed_of_hget :
      (s : Store) (k : String) (f : ℕ) (v : V) → hget s k f ≡ some v → Listed f v (hgetall s k)

abbrev pub exists {ℓ} : {V : Type ℓ} → Option V → Bool
exists none = false
exists (some v) = true
