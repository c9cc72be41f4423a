-- ===== src/Base/Db/Refusals.antt =====
-- Errors that the code itself returns, and what they leave of the tables.
use mathlib.Core.Path.{◌≡◌, refl, ◌∙◌}
use mathlib.Core.Bool.{Bool, true, false}
use native.Mathlib.Omega.{arith}
use full.Base.Tests.{if◌then◌else◌}
use full.Base.Db.{
  Fate, answered, refused, lost, raised, Result, ok, err, Conn, Db, pure, raise, statement,
  transaction, next, finish, begin, continue, ◌>>=◌,
}

-- Where an error of the code itself comes back, the tables are as before.
pub record Refuses {E S A : Type 0} (m : Db E S A) : Type 0 where
  pub kept : (c : Conn S) (e : E) → (m c).0 ≡ err (raised e) → (m c).1.tables ≡ c.tables

-- The tables are as before, whatever comes back.
pub record Reads {E S A : Type 0} (m : Db E S A) : Type 0 where
  pub same : (c : Conn S) → (m c).1.tables ≡ c.tables

module _ {E S A : Type 0} where
  pub Reads-Refuses : (m : Db E S A) → Reads m → Refuses m
  Reads-Refuses m r = record { kept = λ c e h. r.same c }

  pub Reads-pure : (a : A) → Reads {E = E} {S = S} (pure a)
  unfolding pure
  Reads-pure a = record { same = λ c. refl }

  pub Reads-raise : (e : E) → Reads {S = S} {A = A} (raise e)
  unfolding raise
  Reads-raise e = record { same = λ c. refl }

  pub Reads-if : (b : Bool) (m n : Db E S A) → Reads m → Reads n → Reads (if b then m else n)
  Reads-if true m n hm hn = hm
  Reads-if false m n hm hn = hn

  pub Refuses-if :
      (b : Bool) (m n : Db E S A) → Refuses m → Refuses n → Refuses (if b then m else n)
  Refuses-if true m n hm hn = hm
  Refuses-if false m n hm hn = hn

  pub Reads-statement : (f : S → A) → Reads {E = E} (statement (λ s. (f s, s)))
  unfolding statement
  Reads-statement f = record { same = λ c. ground arith }

  finish-kept :
      (s : S) (f : Fate) (out : Result E A × Conn S) (e : E)
      → (finish s f out).0 ≡ err (raised e)
      → (finish s f out).1.tables ≡ s
  finish-kept s f (err x, c) e h = refl
  finish-kept s answered (ok a, c) e h = cc
  finish-kept s refused (ok a, c) e h = refl
  finish-kept s lost (ok a, c) e h = cc

  begin-kept :
      (m : Db E S A) (c : Conn S) (f : Fate) (e : E)
      → (begin m c f).0 ≡ err (raised e)
      → (begin m c f).1.tables ≡ c.tables
  begin-kept m c answered e h = finish-kept _ _ _ e h
  begin-kept m c refused e h = refl
  begin-kept m c lost e h = refl

  -- A transaction that its code ends with an error is rolled back.
  pub Refuses-transaction : (m : Db E S A) → Refuses (transaction m)
  unfolding transaction
  Refuses-transaction m = record { kept = λ c e h. begin-kept m c (next c.fates) e h }

module _ {E S A B : Type 0} where
  continue-kept :
      (k : A → Db E S B) (s : S)
      → ((a : A) → Refuses (k a))
      → (out : Result E A × Conn S) (e : E) → out.1.tables ≡ s
      → (continue out k).0 ≡ err (raised e)
      → (continue out k).1.tables ≡ s
  continue-kept k s h (ok a, c) e same r = (h a).kept c e r ∙ same
  continue-kept k s h (err x, c) e same r = same

  pub Refuses-bind :
      (m : Db E S A) (k : A → Db E S B) → Reads m → ((a : A) → Refuses (k a)) → Refuses (m >>= k)
  unfolding ◌>>=◌
  Refuses-bind m k hm hk = record {
    kept = λ c e h. continue-kept k c.tables hk (m c) e (hm.same c) h;
  }

  continue-same :
      (k : A → Db E S B) (s : S)
      → ((a : A) → Reads (k a))
      → (out : Result E A × Conn S) → out.1.tables ≡ s
      → (continue out k).1.tables ≡ s
  continue-same k s h (ok a, c) same = (h a).same c ∙ same
  continue-same k s h (err x, c) same = same

  pub Reads-bind :
      (m : Db E S A) (k : A → Db E S B) → Reads m → ((a : A) → Reads (k a)) → Reads (m >>= k)
  unfolding ◌>>=◌
  Reads-bind m k hm hk = record { same = λ c. continue-same k c.tables hk (m c) (hm.same c) }
