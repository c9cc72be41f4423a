-- ===== src/Store/Tests.antt =====
-- Concrete inputs for services/store, and Redis as association lists.
use full.Base.{
  ℕ, suc, ◌+◌, ◌≡◌, ◌≢◌, refl, ◌⊎◌, true, false, none, some, List, [], ◌∷◌, String, arith, ◌==◌,
  nat_eq, string_eq, if◌then◌else◌,
}
use full.Base.Int.{ℤ, pos, ◌≤ℤ◌, ◌+ℤ◌}
use full.Base.Dict
use full.Base.Dict.{Dict, get-put, get-remove}
use full.Base.Db.{Conn, ok, err, unavailable, answered, refused, lost}
use full.Base.Db.Laws.{AtomicAt}
use full.Base.Redis.Strings.{Strings, Counters}
use full.Store.Tables.{
  kind_edit, kind_distraction, pending, Product, Purchase, Tables, balance, quantity,
}
use full.Store.Points
use full.Store.Orders
use full.Store.Orders.{confirm_and_grant, open_count, event_exists, find_product}
use full.Store.Ledger.{ledger_sum, credit_effect, credit-repeated}
use full.Store.Spending.{spend_effect, Paid, purchase_with_points-Atomic, purchase_with_points-Paid}
use full.Store.Service.{Event, handle_webhook, purchase_product, initiate_purchase}
use full.Store.Webhooks.{confirm_effect, handle_webhook-repeated}
use full.Store.Limits.{grants, grants-cap}
use full.Store.Service
use full.Store.Service.{get_balance}
use full.Store.Cached
use full.Store.Cached.{IsFresh, serve, get_balance-serve}
use full.Store.Kept.{IsSound}
use full.Store.Soundness.{
  Request, credit_points, buy_with_points, webhook, reward, State, handle_all, handle_all-IsSound,
}
use full.Base.Http.{status_of}
use full.Store.Handlers.{create_points_purchase}
use full.Store.Replies.{IsRefused, create_points_purchase-IsRefused}
use full.Store.Rewarded
use full.Store.Owned.{IsOwnedEdit}

abbrev strings : Strings ℤ
strings = record {
  Store = Dict ℕ ℤ;
  read = Dict.get;
  set = λ k v s. Dict.put s k v;
  del = λ k s. Dict.remove s k;
  read-set = λ s k j v. get-put s k j v;
  read-del = λ s k j. get-remove s k j;
}

abbrev tally : Dict ℕ ℕ → ℕ → ℕ
tally s k = elim (Dict.get s k) [ none ↦ 0 | some n ↦ n ]

tally-put :
    (s : Dict ℕ ℕ) (k j : ℕ)
    → tally (Dict.put s k (suc (tally s k))) j ≡ (if k == j then suc (tally s j) else tally s j)
tally-put s k j = ground (arith, get-put s k j (suc (tally s k)))

abbrev counters : Counters
counters = record {
  Store = Dict ℕ ℕ;
  count = tally;
  incr = λ k s. Dict.put s k (suc (tally s k));
  expire = λ k s. s;
  count-incr = tally-put;
  count-expire = λ s k j. refl;
}

abbrev hat : Product
hat = record {
  id = 1;
  kind = kind_edit;
  price_cents = pos 500;
  is_free = false;
  points_price = some (pos 20);
}

abbrev horn : Product
horn = record {
  id = 2;
  kind = kind_distraction;
  price_cents = pos 0;
  is_free = true;
  points_price = some (pos 5);
}

abbrev order : Purchase
order = record {
  id = 1;
  user_id = 7;
  product_id = 1;
  provider = "stripe";
  provider_ref = some "pi_1";
  amount_cents = pos 500;
  status = pending;
  stripe_event_id = none;
}

abbrev shop : Tables
shop = record {
  products = hat ∷ horn ∷ [];
  purchases = order ∷ [];
  inventory = record { user_id = 9; product_id = 1; quantity = 1 } ∷ [];
  balances = (7, pos 30) ∷ [];
  ledger = record { user_id = 7; delta = pos 30; reason = "match_win"; ref_id = some "m1" } ∷ [];
  next_purchase_id = 2;
}

abbrev open_shop : Conn Tables
open_shop = record { tables = shop; fates = [] }

-- The third statement of a transaction is refused, and a commit is lost later.
abbrev shaky_shop : Conn Tables
shaky_shop = record {
  tables = shop;
  fates = answered ∷ answered ∷ answered ∷ refused ∷ answered ∷ lost ∷ [];
}

shop-IsSound : IsSound shop
unfolding Dict.get ledger_sum ◌+ℤ◌
shop-IsSound = record {
  balanced = λ u. ground arith;
  solvent = λ u. ground arith;
  stocked = ground arith;
}

abbrev start : State strings counters
start = record {
  store = record { conn = shaky_shop; cache = record { tables = []; fates = [] } };
  attempts = record { tables = []; fates = [] };
}

abbrev requests : List Request
requests =
    buy_with_points 7 1
    ∷ credit_points (record { user_id = 7; reason = "match_win"; ref_id = "m2"; delta = pos 0 })
    ∷ reward 7 2
    ∷ webhook (some (record { id = "evt_1"; payment_intent_id = "pi_1"; succeeded = true }))
    ∷ []

handle_all-IsSound_example :
    IsSound
      (handle_all strings counters
        (("match_win", pos 10) ∷ [])
        (pos 3)
        requests
        start).store.conn.tables
handle_all-IsSound_example =
    handle_all-IsSound strings counters (("match_win", pos 10) ∷ []) (pos 3) requests start
      shop-IsSound

purchase_with_points-Atomic_example :
    AtomicAt
      (spend_effect kind_edit 7 1 (pos 20))
      shaky_shop
      (Orders.purchase_with_points kind_edit 7 1 (pos 20) shaky_shop)
purchase_with_points-Atomic_example = purchase_with_points-Atomic kind_edit 7 1 (pos 20) shaky_shop

purchase_with_points-Paid_example :
    let out = Orders.purchase_with_points kind_edit 7 1 (pos 20) open_shop in
    Paid kind_edit 7 1 (pos 20) shop out.0 out.1.tables
purchase_with_points-Paid_example =
    purchase_with_points-Paid kind_edit 7 1 (pos 20) open_shop shop-IsSound.stocked

abbrev credited_shop : Conn Tables
credited_shop = record {
  tables = (credit_effect 7 (pos 10) "match_win" "m2" shop).1;
  fates = answered ∷ refused ∷ [];
}

abbrev second_ref : String
second_ref = "m2"

some_ref : second_ref ≢ ""
some_ref = ground (arith, string_eq.same_iff second_ref "")

credit-repeated_example :
    let out = Points.credit 7 (pos 99) "match_win" "m2" credited_shop in
    (out.1.tables ≡ credited_shop.tables)
    × ((out.0 ≡ err unavailable) ⊎ (out.0 ≡ ok (balance credited_shop.tables 7, false)))
credit-repeated_example =
    credit-repeated 7 (pos 10) (pos 99) "match_win" "m2" shop credited_shop some_ref refl

abbrev paid_shop : Conn Tables
paid_shop = record { tables = (confirm_effect kind_edit 7 1 "pi_1" "evt_1" shop).1; fates = [] }

abbrev second_event : Event
second_event = record { id = "evt_2"; payment_intent_id = "pi_1"; succeeded = true }

order-confirmed : (confirm_effect kind_edit 7 1 "pi_1" "evt_1" shop).0 ≡ ok tt
unfolding open_count event_exists
order-confirmed = refl

handle_webhook-repeated_example :
    (handle_webhook (some second_event) paid_shop).1.tables ≡ paid_shop.tables
handle_webhook-repeated_example =
    handle_webhook-repeated kind_edit 7 1 "evt_1" shop second_event paid_shop order-confirmed refl

abbrev ready : Rewarded.World counters
ready = record { conn = open_shop; counters = record { tables = []; fates = [] } }

grants-cap_example :
    (grants counters (pos 2) 7 (2 ∷ 2 ∷ 1 ∷ 2 ∷ []) ready ≡ 0)
    ⊎ (pos (tally [] 7 + grants counters (pos 2) 7 (2 ∷ 2 ∷ 1 ∷ 2 ∷ []) ready) ≤ℤ pos 2)
grants-cap_example = grants-cap counters (pos 2) 7 (2 ∷ 2 ∷ 1 ∷ 2 ∷ []) ready

hat-owned : IsOwnedEdit 9 1 hat shaky_shop
unfolding find_product quantity
hat-owned = ground arith

abbrev fresh : Service.World strings
fresh = record { conn = open_shop; cache = record { tables = (7, pos 30) ∷ []; fates = [] } }

fresh-IsFresh : IsFresh strings fresh
unfolding Dict.get
fresh-IsFresh u = ground arith

abbrev amounts : Dict String ℤ
amounts = ("match_win", pos 10) ∷ []

abbrev sales : List Cached.Request
sales =
    Cached.ask_balance 7
    ∷ Cached.credit_points
        (record { user_id = 7; reason = "match_win"; ref_id = "m2"; delta = pos 0 })
    ∷ Cached.buy_with_points 7 1
    ∷ []

get_balance-serve_example :
    (get_balance strings 7 (serve strings amounts sales fresh)).0
    ≡ ok (balance (serve strings amounts sales fresh).conn.tables 7)
get_balance-serve_example =
    get_balance-serve strings amounts sales fresh 7 (refl, refl) fresh-IsFresh

create_points_purchase-IsRefused_example :
    let out = create_points_purchase strings 7 9 fresh in
    (status_of out.0 ≡ 201) ⊎ (status_of out.0 ≡ 500) ⊎ IsRefused strings 7 9 fresh out
create_points_purchase-IsRefused_example = create_points_purchase-IsRefused strings 7 9 fresh
