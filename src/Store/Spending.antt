-- ===== src/Store/Spending.antt =====
-- PurchaseWithPoints of services/store/internal/api/repository/purchase_repository.go, whatever
-- fails.
use full.Base.{
  ℕ, suc, ◌≡◌, ◌≤◌, refl, ◌⊎◌, inl, inr, Bool, true, false, ◌&&◌, ◌||◌, Option, none, some, List,
  [], ◌∷◌, String, arith, ◌==◌, nat_eq, string_eq, if◌then◌else◌, Option-cases, Bool-cases,
}
use full.Base.Int.{ℤ, pos, ◌+ℤ◌, ◌-ℤ◌, ◌≤ℤ◌, leb_ℤ, -ℤ_parts, int_laws}
use full.Base.Dict
use full.Base.Dict.{Dict, get-put}
use full.Base.Db.{Conn, Result, ok, err, unavailable, raised}
use full.Base.Db.Laws.{
  Effect, Follows, AtomicAt-keeps, AtomicAt-ext, Atomic, Atomic-transaction, Follows-bind,
  Follows-pure, Follows-raise, Follows-statement, rolled_back, then_effect,
}
use full.Base.Text.{format_int}
use full.Store.Tables.{kind_distraction, paid, Item, Tables, balance, recorded, quantity}
use full.Store.Points.{insert_ledger}
use full.Store.Ledger.{ledger_sum, IsBalanced, IsSolvent}
use full.Store.Orders.{
  Fault, insufficient_points, unique_violation, found_or, new_purchase, grant_item, grant, debit,
  true_or_violation, purchase_with_points_tx, purchase_with_points,
}

abbrev pub found_or_effect : {A : Type 0} → Fault → Option A → Effect Fault Tables A
found_or_effect e none t = (err (raised e), t)
found_or_effect e (some a) t = (ok a, t)

pub found_or-Follows :
    {A : Type 0} (e : Fault) (o : Option A) → Follows (found_or e o) (found_or_effect e o)
found_or-Follows e none = Follows-raise e
found_or-Follows e (some a) = Follows-pure a

minus_lem : (a b : ℤ) → a -ℤ b ≡ a +ℤ (pos 0 -ℤ b)
minus_lem a b = grind int_laws

-- Every row of the inventory holds a unit at least.
abbrev pub IsStocked : List Item → Type 0
IsStocked [] = Unit
IsStocked (i ∷ is) = (1 ≤ i.quantity) × IsStocked is

pub grant_item-IsStocked :
    (kind : String) (u p : ℕ) (is : List Item) → IsStocked is → IsStocked (grant_item kind u p is)
unfolding grant_item
grant_item-IsStocked kind u p [] h = ground arith
grant_item-IsStocked kind u p (i ∷ is) h = ground (arith, grant_item-IsStocked kind u p is)

-- The units after a grant: one more of a distraction, the first one of any other kind.
abbrev pub stocked : String → ℕ → ℕ
stocked kind n = if kind == kind_distraction || n == 0 then suc n else n

pub quantity-grant_item :
    (kind : String) (u p : ℕ) (is : List Item)
    → IsStocked is
    → quantity u p (grant_item kind u p is) ≡ stocked kind (quantity u p is)
unfolding grant_item quantity
quantity-grant_item kind u p [] h = ground arith
quantity-grant_item kind u p (i ∷ is) h = elim (Bool-cases (i.user_id == u && i.product_id == p)) [
  | inl e ↦ elim (Bool-cases (kind == kind_distraction)) [
    | inl d ↦ rw (e, d) (rw e refl)
    | inr d ↦ rw (e, d) (rw e (ground (arith, h.0)))
  ]
  | inr e ↦ rw e (rw e (quantity-grant_item kind u p is h.1))
]

module _ (kind : String) (user_id product_id : ℕ) (price : ℤ) where
  abbrev spent : ℤ → Tables → Tables
  spent b t = record t {
    purchases = (new_purchase user_id product_id "points" none (pos 0) paid t).1.purchases;
    inventory = grant_item kind user_id product_id t.inventory;
    balances = Dict.put t.balances user_id (b -ℤ price);
    ledger =
        record {
          user_id = user_id;
          delta = pos 0 -ℤ price;
          reason = "shop_spend";
          ref_id = some (format_int t.next_purchase_id);
        }
        ∷ t.ledger;
    next_purchase_id = suc t.next_purchase_id;
  }

  abbrev spend_from : Option ℤ → Effect Fault Tables ℤ
  spend_from none t = (err (raised insufficient_points), t)
  spend_from (some b) t =
      if leb_ℤ price b
      then if recorded user_id "shop_spend" (format_int t.next_purchase_id) t.ledger
        then (err (raised unique_violation), t)
        else (ok (b -ℤ price), spent b t)
      else (err (raised insufficient_points), t)

  -- What a purchase with points does: it pays from the balance, records the purchase and the
  -- spending, and grants the product; or it changes nothing.
  abbrev pub spend_effect : Effect Fault Tables ℤ
  spend_effect t = spend_from (Dict.get t.balances user_id) t

  true_effect : Bool → Effect Fault Tables (Unit {0})
  true_effect true t = (ok tt, t)
  true_effect false t = (err (raised unique_violation), t)

  true_or_violation-Follows :
      (b : Bool) → Follows (true_or_violation kind user_id product_id b) (true_effect b)
  unfolding true_effect
  true_or_violation-Follows true = Follows-pure tt
  true_or_violation-Follows false = Follows-raise unique_violation

  statements_effect : Effect Fault Tables ℤ
  unfolding true_effect debit insert_ledger
  statements_effect =
      then_effect
        (λ t.
          (ok (debit kind user_id product_id price t).0, (debit kind user_id product_id price t).1))
        λ d. then_effect (found_or_effect insufficient_points d) λ b.
          then_effect
            (λ t. (
              ok (new_purchase user_id product_id "points" none (pos 0) paid t).0,
              (new_purchase user_id product_id "points" none (pos 0) paid t).1,
            ))
            λ i.
              then_effect
                (λ t.
                  let entered =
                    insert_ledger user_id (pos 0 -ℤ price) "shop_spend" (some (format_int i)) t in
                  (ok entered.0, entered.1))
                λ n. then_effect (true_effect n) λ _.
                  then_effect (λ t. (ok tt, (grant kind user_id product_id t).1)) λ _ t. (ok b, t)

  purchase_with_points_tx-Follows :
      Follows (purchase_with_points_tx kind user_id product_id price) statements_effect
  unfolding purchase_with_points_tx statements_effect
  purchase_with_points_tx-Follows = Follows-bind _ _ _ _ (Follows-statement _) λ d.
      Follows-bind _ _ _ _ (found_or-Follows insufficient_points d) λ b.
        Follows-bind _ _ _ _ (Follows-statement _) λ i.
          Follows-bind _ _ _ _ (Follows-statement _) λ n.
            Follows-bind _ _ _ _ (true_or_violation-Follows n)
              λ _. Follows-bind _ _ _ _ (Follows-statement _) λ _. Follows-pure b

  statements_effect-spend_effect : (t : Tables) → rolled_back statements_effect t ≡ spend_effect t
  unfolding statements_effect debit insert_ledger true_effect
  statements_effect-spend_effect t = ground arith

  -- A purchase with points is all or nothing, whatever fails, and does what `spend_effect` says.
  pub purchase_with_points-Atomic :
      Atomic (purchase_with_points kind user_id product_id price) spend_effect
  unfolding purchase_with_points
  purchase_with_points-Atomic c =
      AtomicAt-ext (rolled_back statements_effect) spend_effect c
        (purchase_with_points kind user_id product_id price c)
        (statements_effect-spend_effect c.tables)
        (Atomic-transaction _ _ purchase_with_points_tx-Follows c)

  spend_effect-IsBalanced : (t : Tables) → IsBalanced t → IsBalanced (spend_effect t).1
  unfolding ledger_sum
  spend_effect-IsBalanced t h u = elim (Option-cases (Dict.get t.balances user_id)) [
    | inl e ↦ ground (arith, h u)
    | inr (b, e) ↦
        ground (arith, h u, h user_id, minus_lem b price, get-put t.balances user_id u (b -ℤ price))
  ]

  -- A purchase with points keeps every balance equal to the sum of the user's ledger.
  pub purchase_with_points-IsBalanced :
      (c : Conn Tables)
      → IsBalanced c.tables
      → IsBalanced (purchase_with_points kind user_id product_id price c).1.tables
  purchase_with_points-IsBalanced c h =
      AtomicAt-keeps IsBalanced spend_effect c
        (purchase_with_points kind user_id product_id price c) (purchase_with_points-Atomic c) h
        (spend_effect-IsBalanced c.tables h)

  -- A purchase with points makes no balance negative, whatever the price.
  pub purchase_with_points-IsSolvent :
      (c : Conn Tables)
      → IsSolvent c.tables
      → IsSolvent (purchase_with_points kind user_id product_id price c).1.tables
  purchase_with_points-IsSolvent c h u = elim (Option-cases (Dict.get c.tables.balances user_id)) [
    | inl e ↦ ground (arith, h u, purchase_with_points-Atomic c)
    | inr (b, e) ↦ ground (
      arith,
      h u,
      h user_id,
      purchase_with_points-Atomic c,
      -ℤ_parts b price,
      get-put c.tables.balances user_id u (b -ℤ price),
    )
  ]

  -- The answer to a purchase, and the tables before and after.
  abbrev pub Paid : Tables → Result Fault ℤ → Tables → Type 0
  Paid t (ok left) after =
      (price ≤ℤ balance t user_id)
      × (left ≡ balance t user_id -ℤ price)
      × (balance after user_id ≡ left)
      × (quantity user_id product_id after.inventory
          ≡ stocked kind (quantity user_id product_id t.inventory))
  Paid t (err (raised e)) after = after ≡ t
  Paid t (err unavailable) after = (after ≡ t) ⊎ (after ≡ (spend_effect t).1)

  -- Where a purchase with points answers, the price is paid from a balance that covers it, the
  -- answer is the balance left, and the user holds one unit more of a distraction, or the first
  -- of any other product; an error of the code's own changes nothing, and after one of the
  -- connection the tables are unchanged or as after the whole purchase. This is where each row of
  -- the inventory holds a unit at least before.
  pub purchase_with_points-Paid :
      (c : Conn Tables)
      → IsStocked c.tables.inventory
      → let out = purchase_with_points kind user_id product_id price c in
        Paid c.tables out.0 out.1.tables
  purchase_with_points-Paid c h = elim (Option-cases (Dict.get c.tables.balances user_id)) [
    | inl e ↦ ground (arith, purchase_with_points-Atomic c)
    | inr (b, e) ↦ ground (
      arith,
      purchase_with_points-Atomic c,
      get-put c.tables.balances user_id user_id (b -ℤ price),
      quantity-grant_item kind user_id product_id c.tables.inventory h,
    )
  ]
