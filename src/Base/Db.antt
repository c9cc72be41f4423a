-- ===== src/Base/Db.antt =====
-- The database as the repositories see it: SQL statements over tables, through a connection that
-- can fail. Each statement, and each begin and commit of a transaction, meets a fate: it is
-- answered, it is refused before it takes effect, or it takes effect and its reply is lost.
-- The list `fates` is any schedule of these; where it ends, all that follows is answered.
-- Statements of one transaction run without interference from others: the transactions of the
-- source lock the rows that they read (FOR UPDATE, an advisory lock, or their first write).
pub mod Laws
pub mod Keeps
pub mod Refusals
use mathlib.Core.List.{List, [], ◌∷◌}

pub data Fate : Type 0 where
  answered refused lost : Fate

-- An error of the connection, or one that the code itself returns.
pub data Error (E : Type 0) : Type 0 where
  unavailable : Error E
  raised : E → Error E

pub data Result (E A : Type 0) : Type 0 where
  ok : A → Result E A
  err : Error E → Result E A

pub record Conn (S : Type 0) : Type 0 where
  pub tables : S
  pub fates : List Fate

abbrev pub Db : Type 0 → Type 0 → Type 0 → Type 0
Db E S A = Conn S → Result E A × Conn S

abbrev pub next : List Fate → Fate
next [] = answered
next (f ∷ fs) = f

abbrev pub later : List Fate → List Fate
later [] = []
later (f ∷ fs) = fs

module _ {E S A : Type 0} where
  unfoldable pub pure : A → Db E S A
  pure a c = (ok a, c)

  unfoldable pub raise : E → Db E S A
  raise e c = (err (raised e), c)

  abbrev pub run : (S → A × S) → S → List Fate → Fate → Result E A × Conn S
  run q s fs answered = (ok (q s).0, record { tables = (q s).1; fates = fs })
  run q s fs refused = (err unavailable, record { tables = s; fates = fs })
  run q s fs lost = (err unavailable, record { tables = (q s).1; fates = fs })

  -- One SQL statement: its rows, and the tables that it leaves.
  unfoldable pub statement : (S → A × S) → Db E S A
  statement q c = run q c.tables (later c.fates) (next c.fates)

module _ {E S A : Type 0} where
  abbrev pub finish : S → Fate → Result E A × Conn S → Result E A × Conn S
  finish s f (err e, c) = (err e, record { tables = s; fates = c.fates })
  finish s answered (ok a, c) = (ok a, record { tables = c.tables; fates = later c.fates })
  finish s refused (ok a, c) = (err unavailable, record { tables = s; fates = later c.fates })
  finish s lost (ok a, c) = (err unavailable, record { tables = c.tables; fates = later c.fates })

  abbrev pub begin : Db E S A → Conn S → Fate → Result E A × Conn S
  begin m c answered =
      let out = m (record { tables = c.tables; fates = later c.fates }) in
      finish c.tables (next out.1.fates) out
  begin m c _ = (err unavailable, record { tables = c.tables; fates = later c.fates })

  -- Begin, the statements of `m`, and a commit; the deferred rollback where an error came back.
  unfoldable pub transaction : Db E S A → Db E S A
  transaction m c = begin m c (next c.fates)

module _ {E S A B : Type 0} where
  abbrev pub continue : Result E A × Conn S → (A → Db E S B) → Result E B × Conn S
  continue (ok a, c) k = k a c
  continue (err e, c) k = (err e, c)

  infixl 5 ◌>>=◌ ◌>>◌
  unfoldable pub ◌>>=◌ : Db E S A → (A → Db E S B) → Db E S B
  ◌>>=◌ m k c = continue (m c) k

  abbrev pub ◌>>◌ : Db E S A → Db E S B → Db E S B
  m >> k = m >>= λ _. k
