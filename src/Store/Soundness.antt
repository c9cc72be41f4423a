-- ===== src/Store/Soundness.antt =====
-- All requests to services/store in one sequence, whatever fails.
use full.Base.{
  ℕ, ◌≡◌, refl, inl, inr, Bool, true, false, ◌||◌, Option, List, [], ◌∷◌, String, arith, ◌==◌,
  nat_eq, string_eq, Bool-cases,
}
use full.Base.Int.{ℤ, pos, leb_ℤ}
use full.Base.Dict.{Dict}
use full.Base.Db.{Conn, Result, ok, err}
use full.Base.Redis.Strings.{Strings, Counters}
use full.Store.Tables.{Product, Tables}
use full.Store.Points
use full.Store.Points.{NoFault}
use full.Store.Orders.{get_product}
use full.Store.Service
use full.Store.Service.{
  PointsCredit, Event, Fault, already_owned, credited, purchased, payment_failed, money_only,
  invalid_webhook, call, credit_amount, credit, purchase_product, purchase_with_points, priced,
  unless_owned, pending_purchase, initiate_purchase, handle_webhook,
}
use full.Store.Webhooks.{get_product-Keeps}
use full.Store.Rewarded
use full.Store.Rewarded.{grant_unit, allow, grantable, limited, looked_up, grant_free_distraction}
use full.Store.Kept.{
  IsSound, credit-keeps, purchase_product-Keeps, initiate_purchase-Keeps, webhook-Keeps,
  grant_unit-Keeps,
}

-- The requests that the service answers.
pub data Request : Type 0 where
  credit_points : PointsCredit → Request
  buy_with_points : ℕ → ℕ → Request
  initiate : (ℕ → ℤ → Option (String × String)) → ℕ → ℕ → Request
  webhook : Option Event → Request
  reward : ℕ → ℕ → Request

module _ (strings : Strings ℤ) (counters : Counters) where
  pub record State : Type 0 where
    pub store : Service.World strings
    pub attempts : Conn counters.Store

module _ (strings : Strings ℤ) (counters : Counters) (amounts : Dict String ℤ) (cap : ℤ) where
  unfoldable pub handle : Request → State strings counters → State strings counters
  handle (credit_points r) s = record s { store = (credit strings amounts r s.store).1 }
  handle (buy_with_points u p) s = record s { store = (purchase_with_points strings u p s.store).1 }
  handle (initiate intent u p) s = record s {
    store = record s.store { conn = (initiate_purchase intent u p s.store.conn).1 };
  }
  handle (webhook o) s = record s {
    store = record s.store { conn = (handle_webhook o s.store.conn).1 };
  }
  handle (reward u p) s =
      let before : Rewarded.World counters = record {
        conn = s.store.conn;
        counters = s.attempts;
      } in
      let after = (grant_free_distraction counters cap u p before).1 in
      record { store = record s.store { conn = after.conn }; attempts = after.counters }

  unfoldable pub handle_all : List Request → State strings counters → State strings counters
  handle_all [] s = s
  handle_all (r ∷ rs) s = handle_all rs (handle r s)

  credited-conn :
      (u : ℕ) (w : Service.World strings) (out : Result NoFault (ℤ × Bool) × Conn Tables)
      → (credited strings u w out).1.conn ≡ out.1
  credited-conn u w (ok (b, x), c) = refl
  credited-conn u w (err e, c) = refl

  purchased-conn :
      (u : ℕ) (cache : Conn strings.Store) (out : Result Fault ℤ × Conn Tables)
      → (purchased strings u cache out).1.conn ≡ out.1
  purchased-conn u cache (ok b, c) = refl
  purchased-conn u cache (err e, c) = refl

  limited-keeps :
      (u p : ℕ) (c : Conn Tables) (out : Result NoFault Bool × Conn counters.Store)
      → IsSound c.tables
      → IsSound (limited counters u p c out).1.conn.tables
  limited-keeps u p c (err e, k) h = h
  limited-keeps u p c (ok false, k) h = h
  limited-keeps u p c (ok true, k) h = (grant_unit-Keeps u p).keeps c h

  looked_up-keeps :
      (u p : ℕ) (k : Conn counters.Store) (out : Result Fault Product × Conn Tables)
      → IsSound out.1.tables
      → IsSound (looked_up counters cap u p k out).1.conn.tables
  looked_up-keeps u p k (err e, c) h = h
  looked_up-keeps u p k (ok product, c) h = elim (Bool-cases (grantable product)) [
    | inl e ↦ rw e (limited-keeps u p c (allow counters cap u k) h)
    | inr e ↦ rw e h
  ]

  handle-IsSound :
      (r : Request) (s : State strings counters)
      → IsSound s.store.conn.tables
      → IsSound (handle r s).store.conn.tables
  unfolding handle credit purchase_with_points grant_free_distraction
  handle-IsSound (credit_points r) s h =
      elim (Bool-cases (r.reason == "" || leb_ℤ (credit_amount amounts r) (pos 0))) [
        | inl e ↦ rw e h
        | inr e ↦
            rw
              (
                e,
                credited-conn r.user_id s.store (
                    Points.credit r.user_id (credit_amount amounts r) r.reason r.ref_id
                      s.store.conn),
              )
              (credit-keeps r.user_id (credit_amount amounts r) r.reason r.ref_id s.store.conn
                (ground (arith, e)) h)
      ]
  handle-IsSound (buy_with_points u p) s h =
      rw (purchased-conn u s.store.cache (purchase_product u p s.store.conn))
        ((purchase_product-Keeps u p).keeps s.store.conn h)
  handle-IsSound (initiate intent u p) s h =
      (initiate_purchase-Keeps intent u p).keeps s.store.conn h
  handle-IsSound (webhook o) s h = (webhook-Keeps o).keeps s.store.conn h
  handle-IsSound (reward u p) s h =
      looked_up-keeps u p s.attempts
        (Service.in_service (get_product p s.store.conn).0, (get_product p s.store.conn).1)
        ((get_product-Keeps IsSound p).keeps s.store.conn h)

  -- From sound tables, whatever requests come, and whatever fails at each, the balances stay the
  -- sums of the ledger, none becomes negative, and each row of the inventory holds a unit at least.
  pub handle_all-IsSound :
      (rs : List Request) (s : State strings counters)
      → IsSound s.store.conn.tables
      → IsSound (handle_all rs s).store.conn.tables
  unfolding handle_all
  handle_all-IsSound [] s h = h
  handle_all-IsSound (r ∷ rs) s h = handle_all-IsSound rs (handle r s) (handle-IsSound r s h)
