-- ===== src/Ratings/Float.antt =====
-- float64 arithmetic, as far as services/ratings/internal/api/domain/rating.go uses it. The type
-- and its operations are a parameter; the laws are those of IEEE 754 that bound a result.
use full.Base.{ℕ, ◌≡◌}
use full.Base.Int.{ℤ, pos, ◌-ℤ◌, ◌≤ℤ◌}

pub record Float64 : Type 1 where
  pub F : Type 0
  infix 50 ◌≤F◌
  pub ◌≤F◌ : F → F → Type 0
  pub add : F → F → F
  pub sub : F → F → F
  pub mul : F → F → F
  pub div : F → F → F
  -- math.Pow(10, x)
  pub pow10 : F → F
  -- float64(n)
  pub of_int : ℤ → F
  -- int(math.Round(x))
  pub round : F → ℤ
  -- the literal 0.8
  pub four_fifths : F
  pub pow10_nonneg : (x : F) → of_int (pos 0) ≤F pow10 x
  pub four_fifths_bounds : (of_int (pos 0) ≤F four_fifths) × (four_fifths ≤F of_int (pos 1))
  pub of_int_nonneg : (n : ℕ) → of_int (pos 0) ≤F of_int (pos n)
  pub one_le_add : (x : F) → of_int (pos 0) ≤F x → of_int (pos 1) ≤F add (of_int (pos 1)) x
  -- Dividing 1 by at least 1 stays between 0 and 1.
  pub div_bounds :
      (y : F)
      → of_int (pos 1) ≤F y
      → (of_int (pos 0) ≤F div (of_int (pos 1)) y) × (div (of_int (pos 1)) y ≤F of_int (pos 1))
  -- So does 1 minus such a value.
  pub sub_bounds :
      (x : F)
      → of_int (pos 0) ≤F x
      → x ≤F of_int (pos 1)
      → (of_int (pos 0) ≤F sub (of_int (pos 1)) x) × (sub (of_int (pos 1)) x ≤F of_int (pos 1))
  -- Scaling by a factor between 0 and 1, and by one between -1 and 0.
  pub mul_bounds :
      (a x : F)
      → of_int (pos 0) ≤F a
      → of_int (pos 0) ≤F x
      → x ≤F of_int (pos 1)
      → (of_int (pos 0) ≤F mul a x) × (mul a x ≤F a)
  pub scale_bounds :
      (a x : F)
      → of_int (pos 0) ≤F a
      → of_int (pos 0) ≤F x
      → x ≤F of_int (pos 1)
      → (of_int (pos 0) ≤F mul x a) × (mul x a ≤F a)
  pub mul_neg_bounds :
      (a x : F) (n : ℕ)
      → of_int (pos 0) ≤F a
      → a ≤F of_int (pos n)
      → of_int (pos 0) ≤F x
      → x ≤F of_int (pos 1)
      → (of_int (pos 0 -ℤ pos n) ≤F mul a (sub (of_int (pos 0)) x))
        × (mul a (sub (of_int (pos 0)) x) ≤F of_int (pos 0))
  -- Rounding keeps the order, and is exact at whole numbers.
  pub round_mono : (x y : F) → x ≤F y → round x ≤ℤ round y
  pub round_int : (n : ℤ) → round (of_int n) ≡ n
