-- ===== src/Store/Handlers.antt =====
-- services/store/internal/api/delivery: points_handler.go, purchase_handler.go and
-- rewarded_handler.go. The user is none where RequireAuth put none into the context, and a request
-- is none where its body could not be bound. No row has an id below 1.
use full.Base.{ℕ, suc, Bool, ◌||◌, Option, none, some, String, ◌==◌, string_eq, if◌then◌else◌}
use full.Base.Db.{Conn, Error, Result, ok, err, raised}
use full.Base.Dict.{Dict}
use full.Base.Http.{Reply, json, error}
use full.Base.Int.{ℤ, pos}
use full.Base.Redis.Strings.{Strings, Counters}
use full.Store.Tables.{Tables}
use full.Store.Orders.{product_not_found, insufficient_points}
use full.Store.Service.{
  Fault, invalid_credit, already_owned, money_only, not_grantable, rate_limited, invalid_webhook,
  repository, World, PointsCredit, Event, credit, get_balance, purchase_with_points,
  initiate_purchase, handle_webhook,
}
use full.Store.Rewarded
use full.Store.Rewarded.{grant_free_distraction}

abbrev pub unauthorized : {A : Type 0} → Reply A
unauthorized = error 401 "unauthorized"

abbrev pub bad_request : {A : Type 0} → Reply A
bad_request = error 400 "bad request"

abbrev pub internal_error : {A : Type 0} → Reply A
internal_error = error 500 "internal server error"

-- creditPointsRequest
pub record CreditPointsRequest : Type 0 where
  pub user_id : ℤ
  pub reason : String
  pub ref_id : String
  pub delta : ℤ

abbrev pub credit_of : ℕ → CreditPointsRequest → PointsCredit
credit_of user_id req = record {
  user_id = user_id;
  reason = req.reason;
  ref_id = req.ref_id;
  delta = req.delta;
}

-- createPurchaseRequest
pub record CreatePurchaseRequest : Type 0 where
  pub product_id : ℤ
  pub pay_with : String

abbrev pub is_pay_with : String → Bool
is_pay_with s = s == "" || s == "money" || s == "points"

-- What a purchase answers: a client secret, or a balance.
pub data Bought : Type 0 where
  client_secret : String → ℕ → Bought
  points_left : ℕ → ℤ → Bought

abbrev pub purchase_error : {A : Type 0} → Error Fault → Reply A
purchase_error (raised (repository product_not_found)) = error 404 "product not found"
purchase_error (raised already_owned) = error 409 "already owned"
purchase_error e = internal_error

abbrev pub points_error : {A : Type 0} → Error Fault → Reply A
points_error (raised money_only) = error 400 "product is money-only"
points_error (raised (repository insufficient_points)) = error 402 "insufficient points"
points_error e = purchase_error e

abbrev pub webhook_reply : Result Fault (Unit {0}) → Reply String
webhook_reply (ok _) = json 200 "ok"
webhook_reply (err (raised invalid_webhook)) = error 400 "invalid webhook"
webhook_reply (err e) = internal_error

-- StripeWebhook; the event is what VerifyWebhook returns, the outer none a body that cannot be
-- read.
unfoldable pub stripe_webhook : Option (Option Event) → Conn Tables → Reply String × Conn Tables
stripe_webhook none c = (bad_request, c)
stripe_webhook (some event) c = let out = handle_webhook event c in (webhook_reply out.0, out.1)

abbrev pub initiated : ℕ → Result Fault String → Reply Bought
initiated product_id (ok secret) = json 201 (client_secret secret product_id)
initiated product_id (err e) = purchase_error e

abbrev pub paid : ℕ → Result Fault ℤ → Reply Bought
paid product_id (ok balance) = json 201 (points_left product_id balance)
paid product_id (err e) = points_error e

abbrev pub balance_reply : Result Fault ℤ → Reply ℤ
balance_reply (ok balance) = json 200 balance
balance_reply (err (raised invalid_credit)) = error 400 "invalid credit"
balance_reply (err e) = internal_error

abbrev pub balance_shown : Result Fault ℤ → Reply ℤ
balance_shown (ok balance) = json 200 balance
balance_shown (err e) = internal_error

module _ (redis : Strings ℤ) where
  abbrev pub credit_at :
      Dict String ℤ → CreditPointsRequest → ℤ → World redis → Reply ℤ × World redis
  credit_at amounts req (pos (suc u)) w =
      let out = credit redis amounts (credit_of (suc u) req) w in (balance_reply out.0, out.1)
  credit_at amounts req _ w = (bad_request, w)

  -- pointsHandler.Credit
  unfoldable pub post_credit :
      Dict String ℤ → Option CreditPointsRequest → World redis → Reply ℤ × World redis
  post_credit amounts none w = (bad_request, w)
  post_credit amounts (some req) w = credit_at amounts req req.user_id w

  -- pointsHandler.GetBalance
  unfoldable pub get_points : Option ℕ → World redis → Reply ℤ × World redis
  get_points none w = (unauthorized, w)
  get_points (some user_id) w =
      let out = get_balance redis user_id w in (balance_shown out.0, out.1)

  -- createPointsPurchase
  unfoldable pub create_points_purchase : ℕ → ℕ → World redis → Reply Bought × World redis
  create_points_purchase user_id product_id w =
      let out = purchase_with_points redis user_id product_id w in (paid product_id out.0, out.1)

  module _ (intent : ℕ → ℤ → Option (String × String)) where
    abbrev pub create_money_purchase : ℕ → ℕ → World redis → Reply Bought × World redis
    create_money_purchase user_id product_id w =
        let out = initiate_purchase intent user_id product_id w.conn in
        (initiated product_id out.0, record w { conn = out.1 })

    abbrev pub purchase_at : ℕ → String → ℤ → World redis → Reply Bought × World redis
    purchase_at user_id pay_with (pos (suc p)) w =
        if pay_with == "points"
        then create_points_purchase user_id (suc p) w
        else if is_pay_with pay_with
        then create_money_purchase user_id (suc p) w
        else (bad_request, w)
    purchase_at user_id pay_with _ w = (bad_request, w)

    -- CreatePurchase
    unfoldable pub post_purchase :
        Option ℕ → Option CreatePurchaseRequest → World redis → Reply Bought × World redis
    post_purchase none req w = (unauthorized, w)
    post_purchase (some user_id) none w = (bad_request, w)
    post_purchase (some user_id) (some req) w = purchase_at user_id req.pay_with req.product_id w

abbrev pub granted : ℕ → Result Fault ℕ → Reply (ℕ × ℕ)
granted product_id (ok quantity) = json 200 (product_id, quantity)
granted product_id (err (raised (repository product_not_found))) = error 404 "product not found"
granted product_id (err (raised not_grantable)) =
    error 400 "product is not a grantable free distraction"
granted product_id (err (raised rate_limited)) = error 429 "rate limit exceeded"
granted product_id (err e) = internal_error

module _ (redis : Counters) (cap : ℤ) where
  abbrev pub grant_at : ℕ → ℤ → Rewarded.World redis → Reply (ℕ × ℕ) × Rewarded.World redis
  grant_at user_id (pos (suc p)) w =
      let out = grant_free_distraction redis cap user_id (suc p) w in (granted (suc p) out.0, out.1)
  grant_at user_id _ w = (bad_request, w)

  -- rewardedHandler.Grant; the request is its field product_id.
  unfoldable pub post_grant :
      Option ℕ → Option ℤ → Rewarded.World redis → Reply (ℕ × ℕ) × Rewarded.World redis
  post_grant none req w = (unauthorized, w)
  post_grant (some user_id) none w = (bad_request, w)
  post_grant (some user_id) (some product_id) w = grant_at user_id product_id w
