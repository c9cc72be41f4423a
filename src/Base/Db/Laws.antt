-- ===== src/Base/Db/Laws.antt =====
-- What a sequence of statements does, where the connection may fail at any of them.
use mathlib.Core.Path.{◌≡◌, refl, sym, subst, fun_ext}
use mathlib.Core.Logic.{◌≢◌, ◌⊎◌, inl, inr}
use mathlib.Core.List.{[]}
use native.Mathlib.Omega.{arith}
use full.Base.Db.{
  unavailable, raised, Result, ok, err, Conn, Db, pure, raise, statement, transaction, continue,
  ◌>>=◌, later,
}

-- A function of the tables alone: a result, and the tables left.
abbrev pub Effect : Type 0 → Type 0 → Type 0 → Type 0
Effect E S A = S → Result E A × S

module _ {E S A : Type 0} where
  -- The connection failed at some statement, or `out` is what `f` says of the tables.
  abbrev pub Agrees : Result E A × S → Conn S → Result E A × Conn S → Type 0
  Agrees r c out =
      ((out.0 ≡ err unavailable) × (c.fates ≢ []))
      ⊎ ((out.0 ≡ r.0) × (out.1.tables ≡ r.1) × (c.fates ≡ [] → out.1.fates ≡ []))

  abbrev pub Meets : Effect E S A → Conn S → Result E A × Conn S → Type 0
  Meets f c out = Agrees (f c.tables) c out

  abbrev pub Follows : Db E S A → Effect E S A → Type 0
  Follows m f = (c : Conn S) → Meets f c (m c)

  -- All or nothing: an error of the connection leaves the tables as they were, or as `f` leaves
  -- them where only the reply to the commit was lost; and without a failure `f` gives the result.
  abbrev pub AtomicAt : Effect E S A → Conn S → Result E A × Conn S → Type 0
  AtomicAt f c out =
      ((out.0 ≡ err unavailable)
        × (c.fates ≢ [])
        × ((out.1.tables ≡ c.tables) ⊎ (out.1.tables ≡ (f c.tables).1)))
      ⊎ ((out.0 ≡ (f c.tables).0) × (out.1.tables ≡ (f c.tables).1))

  abbrev pub Atomic : Db E S A → Effect E S A → Type 0
  Atomic m f = (c : Conn S) → AtomicAt f c (m c)

  pub Follows-pure : (a : A) → Follows (pure a) (λ s. (ok a, s))
  unfolding pure
  Follows-pure a c = inr (refl, refl, λ h. h)

  pub Follows-raise : (e : E) → Follows (raise {A = A} e) (λ s. (err (raised e), s))
  unfolding raise
  Follows-raise e c = inr (refl, refl, λ h. h)

  pub Follows-statement : (q : S → A × S) → Follows (statement q) (λ s. (ok (q s).0, (q s).1))
  unfolding statement
  Follows-statement q c = ground arith

  -- The effect of a sequence, written another way.
  pub Follows-ext :
      (m : Db E S A) (f g : Effect E S A) → ((s : S) → f s ≡ g s) → Follows m f → Follows m g
  Follows-ext m f g h p = subst (Follows m) (fun_ext h) p

  abbrev undone : S → Result E A × S → Result E A × S
  undone s (ok a, t) = (ok a, t)
  undone s (err e, t) = (err e, s)

  -- An effect whose errors are rolled back.
  abbrev pub rolled_back : Effect E S A → Effect E S A
  rolled_back f s = undone s (f s)

  -- Only the tables met matter.
  pub AtomicAt-ext :
      (f g : Effect E S A) (c : Conn S) (out : Result E A × Conn S)
      → f c.tables ≡ g c.tables
      → AtomicAt f c out
      → AtomicAt g c out
  AtomicAt-ext f g c out e h = ground (arith, h)

  -- What the effect keeps, the transaction keeps.
  pub AtomicAt-keeps {ℓ} :
      (P : S → Type ℓ) (f : Effect E S A) (c : Conn S) (out : Result E A × Conn S)
      → AtomicAt f c out
      → P c.tables
      → P (f c.tables).1
      → P out.1.tables
  AtomicAt-keeps P f c out (inl (_, _, inl e)) p q = subst P (sym e) p
  AtomicAt-keeps P f c out (inl (_, _, inr e)) p q = subst P (sym e) q
  AtomicAt-keeps P f c out (inr (_, e)) p q = subst P (sym e) q

  -- A body that follows an effect is atomic as a transaction.
  pub Atomic-transaction :
      (m : Db E S A) (f : Effect E S A) → Follows m f → Atomic (transaction m) (rolled_back f)
  unfolding transaction
  Atomic-transaction m f h c =
      ground (arith, h (record { tables = c.tables; fates = later c.fates }))

module _ {E S A B : Type 0} where
  abbrev pub continue_effect : Result E A × S → (A → Effect E S B) → Result E B × S
  continue_effect (ok a, t) k = k a t
  continue_effect (err e, t) k = (err e, t)

  abbrev pub then_effect : Effect E S A → (A → Effect E S B) → Effect E S B
  then_effect f g s = continue_effect (f s) g

  continue-Agrees :
      (g : A → Effect E S B) (k : A → Db E S B)
      → ((a : A) → Follows (k a) (g a))
      → (c : Conn S) (r : Result E A × S) (out : Result E A × Conn S) → Agrees r c out
      → Agrees (continue_effect r g) c (continue out k)
  continue-Agrees g k hk c (ok b, t) (ok a, d) h = ground (arith, hk a d)
  continue-Agrees g k hk c (err e, t) (ok a, d) h = ground arith
  continue-Agrees g k hk c (ok b, t) (err e, d) h = ground arith
  continue-Agrees g k hk c (err x, t) (err e, d) h = ground arith

  pub Follows-bind :
      (m : Db E S A) (k : A → Db E S B) (f : Effect E S A) (g : A → Effect E S B)
      → Follows m f
      → ((a : A) → Follows (k a) (g a))
      → Follows (m >>= k) (then_effect f g)
  unfolding ◌>>=◌
  Follows-bind m k f g hm hk c = continue-Agrees g k hk c (f c.tables) (m c) (hm c)
