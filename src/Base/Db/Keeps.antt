-- ===== src/Base/Db/Keeps.antt =====
-- Predicates on the tables that a sequence of statements keeps, whatever fails.
use mathlib.Core.Bool.{Bool, true, false}
use full.Base.Tests.{if◌then◌else◌}
use native.Mathlib.Omega.{arith}
use full.Base.Db.{Result, ok, err, Conn, Db, pure, raise, statement, continue, ◌>>=◌}

pub record Keeps {E S A : Type 0} (P : S → Type 0) (m : Db E S A) : Type 0 where
  pub keeps : (c : Conn S) → P c.tables → P (m c).1.tables

module _ {E S A : Type 0} (P : S → Type 0) where
  pub Keeps-pure : (a : A) → Keeps {E = E} P (pure a)
  unfolding pure
  Keeps-pure a = record { keeps = λ c p. p }

  pub Keeps-raise : (e : E) → Keeps {A = A} P (raise e)
  unfolding raise
  Keeps-raise e = record { keeps = λ c p. p }

  pub Keeps-statement :
      (q : S → A × S) → ((s : S) → P s → P (q s).1) → Keeps {E = E} P (statement q)
  unfolding statement
  Keeps-statement q h = record { keeps = λ c p. ground (arith, p, h c.tables p) }

  pub Keeps-if : (b : Bool) (m n : Db E S A) → Keeps P m → Keeps P n → Keeps P (if b then m else n)
  Keeps-if true m n hm hn = hm
  Keeps-if false m n hm hn = hn

module _ {E S A B : Type 0} (P : S → Type 0) where
  continue_lem :
      (k : A → Db E S B)
      → ((a : A) → Keeps P (k a))
      → (out : Result E A × Conn S) → P out.1.tables
      → P (continue out k).1.tables
  continue_lem k h (ok a, c) p = (h a).keeps c p
  continue_lem k h (err e, c) p = p

  pub Keeps-bind :
      (m : Db E S A) (k : A → Db E S B) → Keeps P m → ((a : A) → Keeps P (k a)) → Keeps P (m >>= k)
  unfolding ◌>>=◌
  Keeps-bind m k hm hk = record { keeps = λ c p. continue_lem k hk (m c) (hm.keeps c p) }
