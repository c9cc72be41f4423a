-- ===== src/Store/Orders.antt =====
-- services/store/internal/api/repository/purchase_repository.go, over the tables of Store.Tables.
-- A foreign key is not checked here: the service looks the product up first, and no code deletes
-- one. A sequence that skips numbers after a rollback is rolled back here.
use full.Base.{
  ℕ, suc, Bool, true, false, ◌&&◌, ◌||◌, Option, none, some, List, [], ◌∷◌, String, ltb, ◌==◌,
  nat_eq, string_eq, if◌then◌else◌,
}
use full.Base.Int.{ℤ, pos, ◌-ℤ◌, leb_ℤ}
use full.Base.Dict
use full.Base.Dict.{Dict}
use full.Base.Db.{Db, pure, raise, statement, transaction, ◌>>=◌}
use full.Base.Text.{format_int}
use full.Store.Tables.{
  kind_distraction, Product, Status, pending, paid, Purchase, Item, Tables, quantity,
}
use full.Store.Points.{insert_ledger}

-- ErrProductNotFound, pgx.ErrNoRows of FindByProviderRef, ErrInsufficientPoints, and a row that
-- violates a unique index.
pub data Fault : Type 0 where
  product_not_found no_purchase insufficient_points unique_violation : Fault

unfoldable pub find_product : ℕ → List Product → Option Product
find_product product_id [] = none
find_product product_id (p ∷ ps) = if p.id == product_id then some p else find_product product_id ps

abbrev pub found_or : {A : Type 0} → Fault → Option A → Db Fault Tables A
found_or e none = raise e
found_or e (some p) = pure p

-- GetProduct
unfoldable pub get_product : ℕ → Db Fault Tables Product
get_product product_id = do
  found ← statement (λ t. (find_product product_id t.products, t))
  found_or product_not_found found

-- IsOwned
unfoldable pub is_owned : ℕ → ℕ → Db Fault Tables Bool
is_owned user_id product_id = statement (λ t. (ltb 0 (quantity user_id product_id t.inventory), t))

abbrev pub new_purchase : ℕ → ℕ → String → Option String → ℤ → Status → Tables → ℕ × Tables
new_purchase user_id product_id provider provider_ref amount_cents status t = (
  t.next_purchase_id,
  record t {
    purchases =
        record {
          id = t.next_purchase_id;
          user_id = user_id;
          product_id = product_id;
          provider = provider;
          provider_ref = provider_ref;
          amount_cents = amount_cents;
          status = status;
          stripe_event_id = none;
        }
        ∷ t.purchases;
    next_purchase_id = suc t.next_purchase_id;
  },
)

-- CreatePurchase, of a pending Stripe purchase.
unfoldable pub create_purchase : ℕ → ℕ → String → ℤ → Db Fault Tables ℕ
create_purchase user_id product_id payment_intent_id price_cents =
    statement
      (new_purchase user_id product_id "stripe" (some payment_intent_id) price_cents pending)

abbrev pub is_some_text : Option String → String → Bool
is_some_text none s = false
is_some_text (some r) s = r == s

unfoldable pub event_exists : String → List Purchase → Bool
event_exists event_id [] = false
event_exists event_id (p ∷ ps) = is_some_text p.stripe_event_id event_id || event_exists event_id ps

-- WebhookEventExists
unfoldable pub webhook_event_exists : String → Db Fault Tables Bool
webhook_event_exists event_id = statement (λ t. (event_exists event_id t.purchases, t))

unfoldable pub find_ref : String → List Purchase → Option Purchase
find_ref provider_ref [] = none
find_ref provider_ref (p ∷ ps) =
    if is_some_text p.provider_ref provider_ref then some p else find_ref provider_ref ps

-- FindByProviderRef
unfoldable pub find_by_provider_ref : String → Db Fault Tables Purchase
find_by_provider_ref provider_ref = do
  found ← statement (λ t. (find_ref provider_ref t.purchases, t))
  found_or no_purchase found

-- The rows that confirmPurchaseSQL updates.
abbrev pub is_open : String → Purchase → Bool
is_open provider_ref p =
    is_some_text p.provider_ref provider_ref
    && (elim p.stripe_event_id [ none ↦ true | some e ↦ false ])

unfoldable pub open_count : String → List Purchase → ℕ
open_count provider_ref [] = 0
open_count provider_ref (p ∷ ps) =
    let rest = open_count provider_ref ps in if is_open provider_ref p then suc rest else rest

unfoldable pub confirm_rows : String → String → List Purchase → List Purchase
confirm_rows event_id provider_ref [] = []
confirm_rows event_id provider_ref (p ∷ ps) =
    let rest = confirm_rows event_id provider_ref ps in
    if is_open provider_ref p
    then record p { status = paid; stripe_event_id = some event_id } ∷ rest
    else p ∷ rest

-- confirmPurchaseSQL: the number of rows, or none where the event would stand in two rows.
unfoldable pub confirm_purchase : String → String → Tables → Option ℕ × Tables
confirm_purchase event_id provider_ref t =
    let n = open_count provider_ref t.purchases in
    if ltb 1 n || (ltb 0 n && event_exists event_id t.purchases)
    then (none, t)
    else (some n, record t { purchases = confirm_rows event_id provider_ref t.purchases })

-- The two statements on conflict: a distraction is counted, any other kind is left as it is.
unfoldable pub grant_item : String → ℕ → ℕ → List Item → List Item
grant_item kind user_id product_id [] =
    record { user_id = user_id; product_id = product_id; quantity = 1 } ∷ []
grant_item kind user_id product_id (i ∷ is) =
    let rest = grant_item kind user_id product_id is in
    if i.user_id == user_id && i.product_id == product_id
    then (if kind == kind_distraction then record i { quantity = suc i.quantity } else i) ∷ is
    else i ∷ rest

abbrev pub grant : String → ℕ → ℕ → Tables → Unit {0} × Tables
grant kind user_id product_id t =
    (tt, record t { inventory = grant_item kind user_id product_id t.inventory })

module _ (kind : String) (user_id product_id : ℕ) where
  abbrev pub granted_if : ℕ → Db Fault Tables (Unit {0})
  granted_if n = if n == 0 then pure tt else statement (grant kind user_id product_id)

  unfoldable pub confirm_and_grant_tx : String → String → Db Fault Tables (Unit {0})
  confirm_and_grant_tx provider_ref event_id = do
    confirmed ← statement (confirm_purchase event_id provider_ref)
    n ← found_or unique_violation confirmed
    granted_if n

  -- ConfirmAndGrant
  unfoldable pub confirm_and_grant : String → String → Db Fault Tables (Unit {0})
  confirm_and_grant provider_ref event_id = transaction (confirm_and_grant_tx provider_ref event_id)

  -- debitPointsBalanceSQL
  unfoldable pub debit : ℤ → Tables → Option ℤ × Tables
  debit points_price t = elim (Dict.get t.balances user_id) [
    | none ↦ (none, t)
    | some b ↦
        if leb_ℤ points_price b
        then (
          some (b -ℤ points_price),
          record t { balances = Dict.put t.balances user_id (b -ℤ points_price) },
        )
        else (none, t)
  ]

  abbrev pub true_or_violation : Bool → Db Fault Tables (Unit {0})
  true_or_violation true = pure tt
  true_or_violation false = raise unique_violation

  unfoldable pub purchase_with_points_tx : ℤ → Db Fault Tables ℤ
  purchase_with_points_tx points_price = do
    debited ← statement (debit points_price)
    new_balance ← found_or insufficient_points debited
    purchase_id ← statement (new_purchase user_id product_id "points" none (pos 0) paid)
    entered ←
        statement (
          insert_ledger user_id (pos 0 -ℤ points_price) "shop_spend"
            (some (format_int purchase_id)))
    _ ← true_or_violation entered
    _ ← statement (grant kind user_id product_id)
    pure new_balance

  -- PurchaseWithPoints
  unfoldable pub purchase_with_points : ℤ → Db Fault Tables ℤ
  purchase_with_points points_price = transaction (purchase_with_points_tx points_price)
