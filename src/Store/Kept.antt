-- ===== src/Store/Kept.antt =====
-- What the operations of services/store/internal/api/service keep of the tables.
use full.Base.{ℕ, false, Option, none, some, String, arith, ◌==◌, nat_eq, string_eq, if◌then◌else◌}
use full.Base.Int.{ℤ, pos, ◌≤ℤ◌}
use full.Base.Db.{Conn, pure}
use full.Base.Db.Keeps.{Keeps, Keeps-pure, Keeps-raise, Keeps-statement, Keeps-bind, Keeps-if}
use full.Base.Db.Laws.{AtomicAt-keeps}
use full.Store.Tables.{kind_edit, kind_distraction, Product, Tables}
use full.Store.Points
use full.Store.Points.{NoFault}
use full.Store.Orders
use full.Store.Orders.{confirm_and_grant, get_product, is_owned, create_purchase, grant_item}
use full.Store.Ledger.{
  IsBalanced, IsSolvent, credit-Atomic, credit_effect, credit-IsBalanced, credit-IsSolvent,
}
use full.Store.Spending.{
  IsStocked, grant_item-IsStocked, spend_effect, purchase_with_points-Atomic,
  purchase_with_points-IsBalanced, purchase_with_points-IsSolvent,
}
use full.Store.Service.{
  Event, Fault, already_owned, payment_failed, money_only, invalid_webhook, call, purchase_product,
  priced, pending_purchase, initiate_purchase, handle_webhook,
}
use full.Store.Webhooks.{
  confirm_effect, confirm_and_grant-Atomic, Keeps-call, get_product-Keeps, handle_webhook-Keeps,
}
use full.Store.Rewarded.{grant_unit}

-- Balances are the sums of the ledger, none is negative, and each row of the inventory holds a
-- unit at least.
pub record IsSound (t : Tables) : Type 0 where
  pub balanced : IsBalanced t
  pub solvent : IsSolvent t
  pub stocked : IsStocked t.inventory

confirm_effect-IsSound :
    (kind : String) (u p : ℕ) (ref id : String) (t : Tables)
    → IsSound t
    → IsSound (confirm_effect kind u p ref id t).1
confirm_effect-IsSound kind u p ref id t h = record {
  balanced = λ v. ground (arith, h.balanced v);
  solvent = λ v. ground (arith, h.solvent v);
  stocked = ground (arith, h.stocked, grant_item-IsStocked kind u p t.inventory h.stocked);
}

confirm_and_grant-Keeps :
    (ref id : String) (kind : String) (u p : ℕ) → Keeps IsSound (confirm_and_grant kind u p ref id)
confirm_and_grant-Keeps ref id kind u p = record {
  keeps = λ c h.
      AtomicAt-keeps IsSound (confirm_effect kind u p ref id) c
        (confirm_and_grant kind u p ref id c) (confirm_and_grant-Atomic kind u p ref id c) h
        (confirm_effect-IsSound kind u p ref id c.tables h);
}

purchase_with_points-Keeps :
    (kind : String) (u p : ℕ) (price : ℤ)
    → Keeps IsSound (Orders.purchase_with_points kind u p price)
purchase_with_points-Keeps kind u p price = record {
  keeps = λ c h. record {
    balanced = purchase_with_points-IsBalanced kind u p price c h.balanced;
    solvent = purchase_with_points-IsSolvent kind u p price c h.solvent;
    stocked =
        AtomicAt-keeps (λ t. IsStocked t.inventory) (spend_effect kind u p price) c
          (Orders.purchase_with_points kind u p price c)
          (purchase_with_points-Atomic kind u p price c) h.stocked
          (ground (arith, h.stocked, grant_item-IsStocked kind u p c.tables.inventory h.stocked));
  };
}

pub credit-keeps :
    (u : ℕ) (delta : ℤ) (reason ref : String) (c : Conn Tables)
    → pos 0 ≤ℤ delta
    → IsSound c.tables
    → IsSound (Points.credit u delta reason ref c).1.tables
credit-keeps u delta reason ref c d h = record {
  balanced = credit-IsBalanced u delta reason ref c h.balanced;
  solvent = credit-IsSolvent u delta reason ref c d h.solvent;
  stocked =
      AtomicAt-keeps (λ t. IsStocked t.inventory) (credit_effect u delta reason ref) c
        (Points.credit u delta reason ref c) (credit-Atomic u delta reason ref c) h.stocked
        (ground (arith, h.stocked));
}

is_owned-Keeps :
    (P : Tables → Type 0) (product : Product) (u p : ℕ)
    → Keeps {E = Fault} P (if product.kind == kind_edit then call (is_owned u p) else pure false)
unfolding is_owned
is_owned-Keeps P product u p =
    Keeps-if P (product.kind == kind_edit) _ _ (Keeps-call P _ (Keeps-statement P _ (λ s h. h)))
      (Keeps-pure P false)

priced-Keeps : (product : Product) (u p : ℕ) (o : Option ℤ) → Keeps IsSound (priced product u p o)
priced-Keeps product u p none = Keeps-raise _ money_only
priced-Keeps product u p (some price) = Keeps-bind _ _ _ (is_owned-Keeps _ product u p) λ owned.
    Keeps-if _ owned _ _ (Keeps-raise _ already_owned)
      (Keeps-call _ _ (purchase_with_points-Keeps product.kind u p price))

pub purchase_product-Keeps : (u p : ℕ) → Keeps IsSound (purchase_product u p)
unfolding purchase_product
purchase_product-Keeps u p =
    Keeps-bind _ _ _ (Keeps-call _ _ (get_product-Keeps _ p))
      λ product. priced-Keeps product u p product.points_price

pending_purchase-Keeps :
    (u p : ℕ) (product : Product) (o : Option (String × String))
    → Keeps IsSound (pending_purchase u p product o)
unfolding create_purchase
pending_purchase-Keeps u p product none = Keeps-raise _ payment_failed
pending_purchase-Keeps u p product (some (secret, intent)) =
    Keeps-bind _ _ _
      (Keeps-call _ _ (
        Keeps-statement _ _
          λ s h. record { balanced = h.balanced; solvent = h.solvent; stocked = h.stocked }))
      λ _. Keeps-pure _ secret

pub initiate_purchase-Keeps :
    (intent : ℕ → ℤ → Option (String × String)) (u p : ℕ)
    → Keeps IsSound (initiate_purchase intent u p)
unfolding initiate_purchase
initiate_purchase-Keeps intent u p =
    Keeps-bind _ _ _ (Keeps-call _ _ (get_product-Keeps _ p)) λ product.
      Keeps-bind _ _ _ (is_owned-Keeps _ product u p) λ owned.
        Keeps-if _ owned _ _ (Keeps-raise _ already_owned)
          (pending_purchase-Keeps u p product (intent p product.price_cents))

pub webhook-Keeps : (o : Option Event) → Keeps IsSound (handle_webhook o)
unfolding handle_webhook
webhook-Keeps none = Keeps-raise _ invalid_webhook
webhook-Keeps (some e) = handle_webhook-Keeps _ e (confirm_and_grant-Keeps e.payment_intent_id e.id)

pub grant_unit-Keeps : (u p : ℕ) → Keeps IsSound (grant_unit u p)
unfolding grant_unit
grant_unit-Keeps u p = Keeps-statement _ _ λ s h. record {
  balanced = h.balanced;
  solvent = h.solvent;
  stocked = grant_item-IsStocked kind_distraction u p s.inventory h.stocked;
}
