-- ===== src/Store/Webhooks.antt =====
-- Payment webhooks: ConfirmAndGrant of
-- services/store/internal/api/repository/purchase_repository.go and HandleWebhook of
-- service/purchase_service.go, whatever fails.
use full.Base.{
  ℕ, ◌≡◌, refl, inl, inr, Bool, true, false, ◌||◌, Option, none, some, List, [], ◌∷◌, String, arith,
  ltb, ◌==◌, nat_eq, string_eq, if◌then◌else◌, Bool-cases,
}
use full.Base.Db.{Db, Conn, ok, err, raised}
use full.Base.Db.Laws.{
  Effect, Follows, AtomicAt-ext, Atomic, Atomic-transaction, Follows-bind, Follows-pure,
  Follows-statement, rolled_back, then_effect,
}
use full.Base.Db.Keeps.{Keeps, Keeps-pure, Keeps-raise, Keeps-statement, Keeps-bind}
use full.Store.Tables.{Purchase, Tables}
use full.Store.Orders.{
  Fault, unique_violation, product_not_found, no_purchase, found_or, open_count, event_exists,
  confirm_rows, confirm_purchase, grant_item, grant, granted_if, confirm_and_grant_tx,
  confirm_and_grant, webhook_event_exists, find_by_provider_ref, get_product,
}
use full.Store.Spending.{found_or_effect, found_or-Follows}
use full.Store.Service.{Event, call, confirm_event, unless_known, handle_webhook}

module _ (kind : String) (user_id product_id : ℕ) (provider_ref event_id : String) where
  -- What a confirmation does: it marks the open purchase and grants its product; it does nothing
  -- where no purchase is open, and refuses where two rows would carry the event.
  abbrev pub confirm_effect : Effect Fault Tables (Unit {0})
  confirm_effect t =
      let n = open_count provider_ref t.purchases in
      if n == 0
      then (ok tt, record t { purchases = confirm_rows event_id provider_ref t.purchases })
      else if ltb 1 n || event_exists event_id t.purchases
      then (err (raised unique_violation), t)
      else (
        ok tt,
        record t {
          purchases = confirm_rows event_id provider_ref t.purchases;
          inventory = grant_item kind user_id product_id t.inventory;
        },
      )

  granted_effect : ℕ → Effect Fault Tables (Unit {0})
  granted_effect n t = if n == 0 then (ok tt, t) else (ok tt, (grant kind user_id product_id t).1)

  granted_if-Follows : (n : ℕ) → Follows (granted_if kind user_id product_id n) (granted_effect n)
  unfolding granted_effect
  granted_if-Follows n = elim (Bool-cases (n == 0)) [
    | inl e ↦ rw e (Follows-pure tt)
    | inr e ↦ rw e (Follows-statement _)
  ]

  statements_effect : Effect Fault Tables (Unit {0})
  unfolding granted_effect confirm_purchase
  statements_effect =
      then_effect
        (λ t. (
          ok (confirm_purchase event_id provider_ref t).0,
          (confirm_purchase event_id provider_ref t).1,
        ))
        λ o. then_effect (found_or_effect unique_violation o) granted_effect

  confirm_and_grant_tx-Follows :
      Follows (confirm_and_grant_tx kind user_id product_id provider_ref event_id) statements_effect
  unfolding confirm_and_grant_tx statements_effect
  confirm_and_grant_tx-Follows =
      Follows-bind _ _ _ _ (Follows-statement _)
        λ o. Follows-bind _ _ _ _ (found_or-Follows unique_violation o) granted_if-Follows

  statements_effect-confirm_effect :
      (t : Tables) → rolled_back statements_effect t ≡ confirm_effect t
  unfolding statements_effect confirm_purchase granted_effect
  statements_effect-confirm_effect t = ground arith

  -- A confirmation is all or nothing, whatever fails, and does what `confirm_effect` says.
  pub confirm_and_grant-Atomic :
      Atomic (confirm_and_grant kind user_id product_id provider_ref event_id) confirm_effect
  unfolding confirm_and_grant
  confirm_and_grant-Atomic c =
      AtomicAt-ext (rolled_back statements_effect) confirm_effect c
        (confirm_and_grant kind user_id product_id provider_ref event_id c)
        (statements_effect-confirm_effect c.tables)
        (Atomic-transaction _ _ confirm_and_grant_tx-Follows c)

open_count-confirm_rows :
    (event_id provider_ref : String) (ps : List Purchase)
    → open_count provider_ref (confirm_rows event_id provider_ref ps) ≡ 0
unfolding open_count confirm_rows
open_count-confirm_rows event_id provider_ref [] = refl
open_count-confirm_rows event_id provider_ref (p ∷ ps) =
    ground (arith, open_count-confirm_rows event_id provider_ref ps)

confirm_rows_none :
    (event_id provider_ref : String) (ps : List Purchase)
    → open_count provider_ref ps ≡ 0
    → confirm_rows event_id provider_ref ps ≡ ps
unfolding open_count confirm_rows
confirm_rows_none event_id provider_ref [] h = refl
confirm_rows_none event_id provider_ref (p ∷ ps) h =
    ground (arith, confirm_rows_none event_id provider_ref ps)

-- A confirmation that succeeds leaves no purchase of its payment intent open.
pub confirm_effect_ok :
    (kind : String) (u p : ℕ) (provider_ref event_id : String) (t : Tables)
    → (confirm_effect kind u p provider_ref event_id t).0 ≡ ok tt
    → open_count provider_ref (confirm_effect kind u p provider_ref event_id t).1.purchases ≡ 0
confirm_effect_ok kind u p provider_ref event_id t h =
    ground (arith, open_count-confirm_rows event_id provider_ref t.purchases)

confirm_and_grant_none :
    (kind : String) (u p : ℕ) (provider_ref event_id : String) (c : Conn Tables)
    → open_count provider_ref c.tables.purchases ≡ 0
    → (confirm_and_grant kind u p provider_ref event_id c).1.tables ≡ c.tables
confirm_and_grant_none kind u p provider_ref event_id c h = ground (
  arith,
  confirm_rows_none event_id provider_ref c.tables.purchases h,
  confirm_and_grant-Atomic kind u p provider_ref event_id c,
)

module _ (P : Tables → Type 0) where
  pub Keeps-call : {A : Type 0} (m : Db Fault Tables A) → Keeps P m → Keeps P (call m)
  Keeps-call m h = record { keeps = h.keeps }

  pub found_or-Keeps : {A : Type 0} (e : Fault) (o : Option A) → Keeps P (found_or e o)
  found_or-Keeps e none = Keeps-raise P e
  found_or-Keeps e (some a) = Keeps-pure P a

  pub get_product-Keeps : (p : ℕ) → Keeps P (get_product p)
  unfolding get_product
  get_product-Keeps p =
      Keeps-bind P _ _ (Keeps-statement P _ (λ s h. h)) (found_or-Keeps product_not_found)

  unless_known-Keeps :
      (e : Event)
      → ((kind : String) (u p : ℕ) → Keeps P (confirm_and_grant kind u p e.payment_intent_id e.id))
      → (known : Bool) → Keeps P (unless_known e known)
  unfolding confirm_event find_by_provider_ref
  unless_known-Keeps e h true = Keeps-pure P tt
  unless_known-Keeps e h false =
      Keeps-bind P _ _
        (Keeps-call _
          (Keeps-bind P _ _ (Keeps-statement P _ (λ s q. q)) (found_or-Keeps no_purchase)))
        λ b.
          Keeps-bind P _ _ (Keeps-call _ (get_product-Keeps b.product_id))
            λ p. Keeps-call _ (h p.kind b.user_id b.product_id)

  -- A webhook keeps what the confirmations of its event keep.
  pub handle_webhook-Keeps :
      (e : Event)
      → ((kind : String) (u p : ℕ) → Keeps P (confirm_and_grant kind u p e.payment_intent_id e.id))
      → Keeps P (handle_webhook (some e))
  unfolding handle_webhook webhook_event_exists confirm_event
  handle_webhook-Keeps e h = elim (Bool-cases e.succeeded) [
    | inl s ↦
        rw s (
          Keeps-bind P _ _ (Keeps-call _ (Keeps-statement P _ (λ t q. q))) (unless_known-Keeps e h))
    | inr s ↦ rw s (Keeps-pure P tt)
  ]

-- Once a purchase is confirmed, no webhook of its payment intent, under this event's id or under
-- another's, changes the tables again, whatever fails: it grants nothing twice.
pub handle_webhook-repeated :
    (kind : String) (u p : ℕ) (event_id : String) (t : Tables) (e : Event) (c : Conn Tables)
    → (confirm_effect kind u p e.payment_intent_id event_id t).0 ≡ ok tt
    → c.tables ≡ (confirm_effect kind u p e.payment_intent_id event_id t).1
    → (handle_webhook (some e) c).1.tables ≡ c.tables
handle_webhook-repeated kind u p event_id t e c h same =
    (handle_webhook-Keeps (λ s. s ≡ c.tables) e
        (λ k v q. record {
          keeps = λ d same_d.
              rw
                (confirm_and_grant_none k v q e.payment_intent_id e.id d
                  (rw (same_d, same) (confirm_effect_ok kind u p e.payment_intent_id event_id t h)))
                same_d;
        })).keeps
      c refl
