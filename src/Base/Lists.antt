-- ===== src/Base/Lists.antt =====
-- Lists measured by native numbers, under the library's names, and their Boolean selections: the
-- rows that a WHERE clause, an ORDER BY and an OFFSET of the SQL statements pick.
use Prim.Native.Nat.{ℕ, zero, suc, ◌+◌, ◌≤◌}
use mathlib.Core.Path.{◌≡◌, refl}
use mathlib.Core.Bool.{Bool, true, false, not, ◌&&◌, ◌||◌}
use mathlib.Core.List.{List, [], ◌∷◌, map}
use native.Mathlib.Omega.{arith}
use full.Base.Tests.{if◌then◌else◌}

module _ {ℓ} {A : Type ℓ} where
  abbrev pub length : List A → ℕ
  length [] = 0
  length (x ∷ xs) = suc (length xs)

  abbrev pub take : ℕ → List A → List A
  take zero xs = []
  take (suc n) [] = []
  take (suc n) (x ∷ xs) = x ∷ take n xs

  abbrev pub drop : ℕ → List A → List A
  drop zero xs = xs
  drop (suc n) [] = []
  drop (suc n) (x ∷ xs) = drop n xs

  abbrev pub filter : (A → Bool) → List A → List A
  filter p [] = []
  filter p (x ∷ xs) = let rest = filter p xs in if p x then x ∷ rest else rest

  abbrev pub count_p : (A → Bool) → List A → ℕ
  count_p p [] = 0
  count_p p (x ∷ xs) = (if p x then 1 else 0) + count_p p xs

  abbrev pub any : (A → Bool) → List A → Bool
  any p [] = false
  any p (x ∷ xs) = if p x then true else any p xs

  -- The rows in the order of `precedes`, by insertion.
  abbrev pub insert_by : (A → A → Bool) → A → List A → List A
  insert_by precedes x [] = x ∷ []
  insert_by precedes x (y ∷ ys) =
      let rest = y ∷ insert_by precedes x ys in if precedes x y then x ∷ y ∷ ys else rest

  abbrev pub sort_by : (A → A → Bool) → List A → List A
  sort_by precedes [] = []
  sort_by precedes (x ∷ xs) = insert_by precedes x (sort_by precedes xs)

  pub length-filter : (p : A → Bool) (xs : List A) → length (filter p xs) ≡ count_p p xs
  length-filter p [] = refl
  length-filter p (x ∷ xs) = ground (arith, length-filter p xs)

  pub count_p-le : (p : A → Bool) (xs : List A) → count_p p xs ≤ length xs
  count_p-le p [] = omega arith
  count_p-le p (x ∷ xs) = ground (arith, count_p-le p xs)

  pub length-take : (n : ℕ) (xs : List A) → length (take n xs) ≤ n
  length-take zero xs = omega arith
  length-take (suc n) [] = omega arith
  length-take (suc n) (x ∷ xs) = omega (arith, length-take n xs)

  pub count_p-take-drop :
      (p : A → Bool) (n : ℕ) (xs : List A)
      → count_p p xs ≡ count_p p (take n xs) + count_p p (drop n xs)
  count_p-take-drop p zero xs = omega arith
  count_p-take-drop p (suc n) [] = omega arith
  count_p-take-drop p (suc n) (x ∷ xs) = ground (arith, count_p-take-drop p n xs)

  pub count_p-filter :
      (p q : A → Bool) (xs : List A) → count_p p (filter q xs) ≡ count_p (λ x. q x && p x) xs
  count_p-filter p q [] = refl
  count_p-filter p q (x ∷ xs) = ground (arith, count_p-filter p q xs)

  count_p-insert_by :
      (p : A → Bool) (precedes : A → A → Bool) (x : A) (xs : List A)
      → count_p p (insert_by precedes x xs) ≡ count_p p (x ∷ xs)
  count_p-insert_by p precedes x [] = refl
  count_p-insert_by p precedes x (y ∷ ys) = ground (arith, count_p-insert_by p precedes x ys)

  -- Sorting neither loses nor adds a row.
  pub count_p-sort_by :
      (p : A → Bool) (precedes : A → A → Bool) (xs : List A)
      → count_p p (sort_by precedes xs) ≡ count_p p xs
  count_p-sort_by p precedes [] = refl
  count_p-sort_by p precedes (x ∷ xs) =
      omega
        (arith, count_p-insert_by p precedes x (sort_by precedes xs), count_p-sort_by p precedes xs)

  pub count_p-congr :
      (p q : A → Bool) (xs : List A) → ((x : A) → p x ≡ q x) → count_p p xs ≡ count_p q xs
  count_p-congr p q [] h = refl
  count_p-congr p q (x ∷ xs) h = ground (arith, h x, count_p-congr p q xs h)

  pub count_p-any : (p : A → Bool) (xs : List A) → any p xs ≡ true → 1 ≤ count_p p xs
  count_p-any p [] h = cc
  count_p-any p (x ∷ xs) h = ground (arith, count_p-any p xs)

  pub any-count_p : (p : A → Bool) (xs : List A) → count_p p xs ≡ 0 → any p xs ≡ false
  any-count_p p [] h = refl
  any-count_p p (x ∷ xs) h = ground (arith, any-count_p p xs)

  pub count_p-filter-le : (p q : A → Bool) (xs : List A) → count_p p (filter q xs) ≤ count_p p xs
  count_p-filter-le p q [] = omega arith
  count_p-filter-le p q (x ∷ xs) = ground (arith, count_p-filter-le p q xs)

  pub count_p-drop-le : (p : A → Bool) (n : ℕ) (xs : List A) → count_p p (drop n xs) ≤ count_p p xs
  count_p-drop-le p n xs = omega (arith, count_p-take-drop p n xs)

  -- A row that comes before all others is put first.
  pub insert_by-first :
      (precedes : A → A → Bool) (x : A) (xs : List A)
      → count_p (λ y. not (precedes x y)) xs ≡ 0
      → insert_by precedes x xs ≡ x ∷ xs
  insert_by-first precedes x [] h = refl
  insert_by-first precedes x (y ∷ ys) h = ground arith

  -- What implies another test is met no more often.
  pub count_p_mono :
      (p q : A → Bool) (xs : List A)
      → ((x : A) → p x ≡ true → q x ≡ true)
      → count_p p xs ≤ count_p q xs
  count_p_mono p q [] h = omega arith
  count_p_mono p q (x ∷ xs) h = ground (arith, h x, count_p_mono p q xs h)

  pub count_p-both :
      (p q : A → Bool) (xs : List A)
      → count_p p xs ≡ count_p (λ x. p x && q x) xs + count_p (λ x. p x && not (q x)) xs
  count_p-both p q [] = omega arith
  count_p-both p q (x ∷ xs) = ground (arith, count_p-both p q xs)

  -- What implies one of two other tests is met no more often than both together.
  pub count_p-or :
      (p q r : A → Bool) (xs : List A)
      → ((x : A) → p x ≡ true → (q x || r x) ≡ true)
      → count_p p xs ≤ count_p q xs + count_p r xs
  count_p-or p q r [] h = omega arith
  count_p-or p q r (x ∷ xs) h = ground (arith, h x, count_p-or p q r xs h)

  pub filter-none : (p : A → Bool) (xs : List A) → count_p p xs ≡ 0 → filter p xs ≡ []
  filter-none p [] h = refl
  filter-none p (x ∷ xs) h = ground (arith, filter-none p xs)

  -- A weaker selection before another one changes nothing.
  pub filter-filter :
      (p q : A → Bool) (xs : List A)
      → ((x : A) → p x ≡ true → q x ≡ true)
      → filter p (filter q xs) ≡ filter p xs
  filter-filter p q [] h = refl
  filter-filter p q (x ∷ xs) h = ground (arith, h x, filter-filter p q xs h)

pub length-map : {A B : Type 0} (f : A → B) (xs : List A) → length (map f xs) ≡ length xs
length-map f [] = refl
length-map f (x ∷ xs) = ground (arith, length-map f xs)
