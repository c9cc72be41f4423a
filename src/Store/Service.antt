-- ===== src/Store/Service.antt =====
-- services/store/internal/api/service: points_service.go, purchase_service.go and
-- rewarded_service.go, with points_cache_repository.go and rewarded_rate_limiter.go. A failed
-- delete or write of the cache is logged and dropped.
use full.Base.{
  ℕ, Bool, true, false, not, ◌||◌, Option, none, some, String, ◌==◌, nat_eq, string_eq,
  if◌then◌else◌,
}
use full.Base.Int.{ℤ, pos, leb_ℤ}
use full.Base.Dict
use full.Base.Dict.{Dict}
use full.Base.Db.{Db, Conn, Result, ok, err, unavailable, raised, pure, raise, statement, ◌>>=◌}
use full.Base.Redis.Strings.{Strings}
use full.Store.Tables.{kind_edit, Product, Tables, or_zero}
use full.Store.Points
use full.Store.Points.{NoFault}
use full.Store.Orders
use full.Store.Orders.{
  get_product, is_owned, create_purchase, webhook_event_exists, find_by_provider_ref,
  confirm_and_grant, grant,
}

-- domain.PointsCredit
pub record PointsCredit : Type 0 where
  pub user_id : ℕ
  pub reason : String
  pub ref_id : String
  pub delta : ℤ

pub data Fault : Type 0 where
  invalid_credit already_owned money_only not_grantable rate_limited payment_failed
        invalid_webhook :
      Fault
  repository : Orders.Fault → Fault

abbrev pub in_service : {A : Type 0} → Result Orders.Fault A → Result Fault A
in_service (ok a) = ok a
in_service (err unavailable) = err unavailable
in_service (err (raised e)) = err (raised (repository e))

-- A call of the purchase repository from the service.
abbrev pub call : {A : Type 0} → Db Orders.Fault Tables A → Db Fault Tables A
call m c = let (r, d) = m c in (in_service r, d)

-- The amount of a credit: the request's, or the configured one for its reason.
abbrev pub credit_amount : Dict String ℤ → PointsCredit → ℤ
credit_amount amounts r =
    if leb_ℤ r.delta (pos 0) then or_zero (Dict.get amounts r.reason) else r.delta

abbrev pub unless_owned : {A : Type 0} → Product → ℕ → ℕ → Db Fault Tables A → Db Fault Tables A
unless_owned product user_id product_id rest = do
  owned ← if product.kind == kind_edit then call (is_owned user_id product_id) else pure false
  if owned then raise already_owned else rest

abbrev pub priced : Product → ℕ → ℕ → Option ℤ → Db Fault Tables ℤ
priced product user_id product_id none = raise money_only
priced product user_id product_id (some price) =
    unless_owned product user_id product_id
      (call (Orders.purchase_with_points product.kind user_id product_id price))

unfoldable pub purchase_product : ℕ → ℕ → Db Fault Tables ℤ
purchase_product user_id product_id = do
  product ← call (get_product product_id)
  priced product user_id product_id product.points_price

module _ (redis : Strings ℤ) where
  open redis use {Store, read, set, del}

  pub record World : Type 0 where
    pub conn : Conn Tables
    pub cache : Conn Store

  -- DeleteBalance, whose failure is dropped.
  unfoldable pub delete_balance : ℕ → Conn Store → Conn Store
  delete_balance user_id c =
      let dropped : Result NoFault (Unit {0}) × Conn Store =
        statement (λ s. (tt, del user_id s)) c in
      dropped.1

  unfoldable pub set_balance : ℕ → ℤ → Conn Store → Conn Store
  set_balance user_id b c =
      let dropped : Result NoFault (Unit {0}) × Conn Store =
        statement (λ s. (tt, set user_id b s)) c in
      dropped.1

  unfoldable pub cached_balance : ℕ → Db NoFault Store (Option ℤ)
  cached_balance user_id = statement (λ s. (read s user_id, s))

  abbrev pub credited : ℕ → World → Result NoFault (ℤ × Bool) × Conn Tables → Result Fault ℤ × World
  credited user_id w (ok (b, _), c) =
      (ok b, record { conn = c; cache = delete_balance user_id w.cache })
  credited user_id w (err _, c) = (err unavailable, record w { conn = c })

  -- pointsService.Credit
  unfoldable pub credit : Dict String ℤ → PointsCredit → World → Result Fault ℤ × World
  credit amounts r w =
      let delta = credit_amount amounts r in
      let done = credited r.user_id w (Points.credit r.user_id delta r.reason r.ref_id w.conn) in
      if r.reason == "" || leb_ℤ delta (pos 0) then (err (raised invalid_credit), w) else done

  abbrev pub balance_read : ℕ → Conn Store → Result NoFault ℤ × Conn Tables → Result Fault ℤ × World
  balance_read user_id cache (ok b, c) =
      (ok b, record { conn = c; cache = set_balance user_id b cache })
  balance_read user_id cache (err _, c) = (err unavailable, record { conn = c; cache = cache })

  abbrev pub balance_from :
      ℕ → Conn Tables → Result NoFault (Option ℤ) × Conn Store → Result Fault ℤ × World
  balance_from user_id c (ok (some b), cache) = (ok b, record { conn = c; cache = cache })
  balance_from user_id c (ok none, cache) =
      balance_read user_id cache (Points.get_balance user_id c)
  balance_from user_id c (err _, cache) = balance_read user_id cache (Points.get_balance user_id c)

  -- pointsService.GetBalance
  unfoldable pub get_balance : ℕ → World → Result Fault ℤ × World
  get_balance user_id w = balance_from user_id w.conn (cached_balance user_id w.cache)

  abbrev pub purchased : ℕ → Conn Store → Result Fault ℤ × Conn Tables → Result Fault ℤ × World
  purchased user_id cache (ok b, c) =
      (ok b, record { conn = c; cache = delete_balance user_id cache })
  purchased user_id cache (err e, c) = (err e, record { conn = c; cache = cache })

  -- purchaseService.PurchaseWithPoints
  unfoldable pub purchase_with_points : ℕ → ℕ → World → Result Fault ℤ × World
  purchase_with_points user_id product_id w =
      purchased user_id w.cache (purchase_product user_id product_id w.conn)

-- What CreatePaymentIntent returns: the client secret and the payment intent; none is an error.
abbrev pub pending_purchase : ℕ → ℕ → Product → Option (String × String) → Db Fault Tables String
pending_purchase user_id product_id product none = raise payment_failed
pending_purchase user_id product_id product (some (client_secret, payment_intent_id)) = do
  _ ← call (create_purchase user_id product_id payment_intent_id product.price_cents)
  pure client_secret

-- purchaseService.InitiatePurchase; `intent` is the payment provider's.
unfoldable pub initiate_purchase :
    (ℕ → ℤ → Option (String × String)) → ℕ → ℕ → Db Fault Tables String
initiate_purchase intent user_id product_id = do
  product ← call (get_product product_id)
  owned ← if product.kind == kind_edit then call (is_owned user_id product_id) else pure false
  if owned
      then raise already_owned
      else pending_purchase user_id product_id product (intent product_id product.price_cents)

-- A verified webhook: the event, its payment intent, and whether the payment succeeded.
pub record Event : Type 0 where
  pub id : String
  pub payment_intent_id : String
  pub succeeded : Bool

unfoldable pub confirm_event : Event → Db Fault Tables (Unit {0})
confirm_event e = do
  purchase ← call (find_by_provider_ref e.payment_intent_id)
  product ← call (get_product purchase.product_id)
  call
      (confirm_and_grant product.kind purchase.user_id purchase.product_id e.payment_intent_id e.id)

abbrev pub unless_known : Event → Bool → Db Fault Tables (Unit {0})
unless_known e true = pure tt
unless_known e false = confirm_event e

-- purchaseService.HandleWebhook, of what VerifyWebhook returns.
unfoldable pub handle_webhook : Option Event → Db Fault Tables (Unit {0})
handle_webhook none = raise invalid_webhook
handle_webhook (some e) =
    if not e.succeeded
    then pure tt
    else (do known ← call (webhook_event_exists e.id); unless_known e known)
