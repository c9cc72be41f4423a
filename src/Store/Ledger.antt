-- ===== src/Store/Ledger.antt =====
-- The ledger and the balances of the store under Credit of points_repository.go, whatever fails.
use full.Base.{
  ℕ, ◌≡◌, ◌≢◌, ◌⊎◌, Bool, true, false, List, [], ◌∷◌, String, arith, ◌==◌, nat_eq, string_eq,
  if◌then◌else◌,
}
use full.Base.Int.{ℤ, pos, ◌+ℤ◌, ◌≤ℤ◌, +ℤ_parts}
use full.Base.Dict
use full.Base.Dict.{Dict, get-put}
use full.Base.Db.{Conn, ok, err, unavailable}
use full.Base.Db.Laws.{
  Effect, Follows, AtomicAt-keeps, Atomic, Atomic-transaction, Follows-bind, Follows-pure,
  Follows-statement, Follows-ext,
}
use full.Store.Tables.{Entry, Tables, balance, recorded}
use full.Store.Points.{
  NoFault, ref_arg, repeated, insert_ledger, upsert_balance, credit_inserted, credit_tx, credit,
}

-- The sum of a user's deltas.
unfoldable pub ledger_sum : ℕ → List Entry → ℤ
ledger_sum user_id [] = pos 0
ledger_sum user_id (e ∷ es) =
    let rest = ledger_sum user_id es in if e.user_id == user_id then rest +ℤ e.delta else rest

-- Every balance is the sum of the user's ledger.
abbrev pub IsBalanced : Tables → Type 0
IsBalanced t = (u : ℕ) → balance t u ≡ ledger_sum u t.ledger

module _ (user_id : ℕ) (delta : ℤ) (reason ref_id : String) where
  abbrev entry : Entry
  entry = record { user_id = user_id; delta = delta; reason = reason; ref_id = ref_arg ref_id }

  -- What a credit does: a repeated reference reads the balance, any other adds to it.
  abbrev pub credit_effect : Effect NoFault Tables (ℤ × Bool)
  credit_effect t =
      let b = balance t user_id in
      if repeated user_id reason (ref_arg ref_id) t.ledger then (ok (b, false), t) else (
        ok (b +ℤ delta, true),
        record t { balances = Dict.put t.balances user_id (b +ℤ delta); ledger = entry ∷ t.ledger },
      )

  inserted_effect : Bool → Effect NoFault Tables (ℤ × Bool)
  inserted_effect true t =
      (ok (balance t user_id +ℤ delta, true), (upsert_balance user_id delta t).1)
  inserted_effect false t = (ok (balance t user_id, false), t)

  credit_inserted-Follows :
      (b : Bool) → Follows (credit_inserted user_id delta b) (inserted_effect b)
  unfolding inserted_effect upsert_balance
  credit_inserted-Follows true = Follows-bind _ _ _ _ (Follows-statement _) λ b. Follows-pure _
  credit_inserted-Follows false = Follows-bind _ _ _ _ (Follows-statement _) λ b. Follows-pure _

  credit_tx-Follows : Follows (credit_tx user_id delta reason ref_id) credit_effect
  unfolding credit_tx insert_ledger inserted_effect upsert_balance
  credit_tx-Follows =
      Follows-ext _ _ credit_effect (λ t. ground arith)
        (Follows-bind _ _ _ _ (Follows-statement _) credit_inserted-Follows)

  -- A credit is all or nothing, whatever fails, and does what `credit_effect` says.
  pub credit-Atomic : Atomic (credit user_id delta reason ref_id) credit_effect
  unfolding credit
  credit-Atomic c = ground (arith, Atomic-transaction _ _ credit_tx-Follows c)

  credit_effect-IsBalanced : (t : Tables) → IsBalanced t → IsBalanced (credit_effect t).1
  unfolding ledger_sum
  credit_effect-IsBalanced t b u =
      ground (arith, b u, get-put t.balances user_id u (balance t user_id +ℤ delta))

  -- Whatever fails, a credit keeps every balance equal to the sum of the user's ledger.
  pub credit-IsBalanced :
      (c : Conn Tables)
      → IsBalanced c.tables
      → IsBalanced (credit user_id delta reason ref_id c).1.tables
  credit-IsBalanced c b =
      AtomicAt-keeps IsBalanced credit_effect c (credit user_id delta reason ref_id c)
        (credit-Atomic c) b (credit_effect-IsBalanced c.tables b)

recorded_head :
    (user_id : ℕ) (delta : ℤ) (reason ref_id : String) (t : Tables)
    → ref_id ≢ ""
    → repeated user_id reason
        (ref_arg ref_id)
        (credit_effect user_id delta reason ref_id t).1.ledger
      ≡ true
unfolding recorded
recorded_head user_id delta reason ref_id t n = ground (
  arith,
  string_eq.same_iff reason reason,
  string_eq.same_iff ref_id ref_id,
  string_eq.same_iff ref_id "",
)

-- After a credit with a reference that is not empty has taken effect, a credit of the same user,
-- reason and reference changes nothing, whatever amount it asks for and whatever fails; and where
-- it answers, it answers the user's balance, as not credited.
pub credit-repeated :
    (user_id : ℕ) (delta again : ℤ) (reason ref_id : String) (t : Tables) (c : Conn Tables)
    → ref_id ≢ ""
    → c.tables ≡ (credit_effect user_id delta reason ref_id t).1
    → let out = credit user_id again reason ref_id c in
      (out.1.tables ≡ c.tables)
      × ((out.0 ≡ err unavailable) ⊎ (out.0 ≡ ok (balance c.tables user_id, false)))
credit-repeated user_id delta again reason ref_id t c n e = ground (
  arith,
  recorded_head user_id delta reason ref_id t n,
  credit-Atomic user_id again reason ref_id c,
)

-- No balance is negative.
abbrev pub IsSolvent : Tables → Type 0
IsSolvent t = (u : ℕ) → pos 0 ≤ℤ balance t u

-- Whatever fails, a credit of an amount that is not negative makes no balance negative.
pub credit-IsSolvent :
    (user_id : ℕ) (delta : ℤ) (reason ref_id : String) (c : Conn Tables)
    → pos 0 ≤ℤ delta
    → IsSolvent c.tables
    → IsSolvent (credit user_id delta reason ref_id c).1.tables
credit-IsSolvent user_id delta reason ref_id c d s u = ground (
  arith,
  credit-Atomic user_id delta reason ref_id c,
  s u,
  s user_id,
  get-put c.tables.balances user_id u (balance c.tables user_id +ℤ delta),
  +ℤ_parts (balance c.tables user_id) delta,
)
