-- ===== src/Store/Replies.antt =====
-- What a client of services/store/internal/api/delivery/purchase_handler.go may conclude from an
-- error.
use full.Base.{ℕ, ◌≤◌, ◌<◌, ◌≡◌, ◌⊎◌, inl, inr, refl, false, Option, none, some, arith, string_eq}
use full.Base.Db.{Conn, Result, ok, err, raised, unavailable, Db}
use full.Base.Db.Refusals.{
  Refuses, Reads, Reads-Refuses, Reads-pure, Reads-raise, Reads-if, Refuses-if, Reads-statement,
  Refuses-transaction, Refuses-bind, Reads-bind,
}
use full.Base.Http.{Reply, status_of}
use full.Base.Int.{ℤ}
use full.Base.Redis.Strings.{Strings}
use full.Store.Tables.{Product, Tables}
use full.Store.Orders
use full.Store.Orders.{find_product, get_product, is_owned, found_or}
use full.Store.Service.{
  Fault, World, call, in_service, already_owned, money_only, priced, purchase_product, purchased,
  purchase_with_points,
}
use full.Store.Handlers.{Bought, points_error, paid, create_points_purchase}

in_service_raised :
    {A : Type 0} (r : Result Orders.Fault A) (e : Fault)
    → in_service r ≡ err (raised e)
    → (x : Orders.Fault) × (r ≡ err (raised x))
in_service_raised (ok a) e h = cc
in_service_raised (err unavailable) e h = cc
in_service_raised (err (raised x)) e h = (x, refl)

call-Refuses : {A : Type 0} (m : Db Orders.Fault Tables A) → Refuses m → Refuses (call m)
call-Refuses m r = record {
  kept = λ c e h. let (x, same) = in_service_raised (m c).0 e h in r.kept c x same;
}

call-Reads : {A : Type 0} (m : Db Orders.Fault Tables A) → Reads m → Reads (call m)
call-Reads m r = record { same = λ c. r.same c }

found_or-Reads : {A : Type 0} (e : Orders.Fault) (o : Option A) → Reads (found_or e o)
found_or-Reads e none = Reads-raise e
found_or-Reads e (some a) = Reads-pure a

get_product-Reads : (product_id : ℕ) → Reads (get_product product_id)
unfolding get_product
get_product-Reads product_id = Reads-bind _ _ (Reads-statement _) (λ o. found_or-Reads _ o)

is_owned-Reads : (user_id product_id : ℕ) → Reads (is_owned user_id product_id)
unfolding is_owned
is_owned-Reads user_id product_id = Reads-statement _

priced-Refuses :
    (product : Product) (user_id product_id : ℕ) (price : Option ℤ)
    → Refuses (priced product user_id product_id price)
unfolding Orders.purchase_with_points
priced-Refuses product user_id product_id none = Reads-Refuses _ (Reads-raise money_only)
priced-Refuses product user_id product_id (some price) =
    Refuses-bind _ _
      (Reads-if _ _ _ (call-Reads _ (is_owned-Reads user_id product_id)) (Reads-pure false))
      (λ owned.
        Refuses-if owned _ _ (Reads-Refuses _ (Reads-raise already_owned))
          (call-Refuses _ (Refuses-transaction _)))

purchase_product-Refuses : (user_id product_id : ℕ) → Refuses (purchase_product user_id product_id)
unfolding purchase_product
purchase_product-Refuses user_id product_id =
    Refuses-bind _ _ (call-Reads _ (get_product-Reads product_id))
      (λ product. priced-Refuses product user_id product_id product.points_price)

refused_status :
    (x : Fault)
    → let status = status_of (points_error {A = Bought} (raised x)) in
      (status ≡ 500) ⊎ ((400 ≤ status) × (status < 500))
refused_status x = ground arith

module _ (redis : Strings ℤ) (user_id product_id : ℕ) (w : World redis) where
  abbrev pub IsRefused : Reply Bought × World redis → Type 0
  IsRefused (reply, v) =
      (400 ≤ status_of reply)
      × (status_of reply < 500)
      × (v.conn.tables ≡ w.conn.tables)
      × (v.cache ≡ w.cache)

  paid-IsRefused :
      (out : Result Fault ℤ × Conn Tables)
      → ((e : Fault) → out.0 ≡ err (raised e) → out.1.tables ≡ w.conn.tables)
      → let (result, v) = purchased redis user_id w.cache out in
        (status_of (paid product_id result) ≡ 201)
        ⊎ (status_of (paid product_id result) ≡ 500)
        ⊎ IsRefused (paid product_id result, v)
  paid-IsRefused (ok b, c) h = inl refl
  paid-IsRefused (err unavailable, c) h = inr (inl refl)
  paid-IsRefused (err (raised e), c) h = elim (refused_status e) [
    | inl s ↦ inr (inl s)
    | inr (l, u) ↦ inr (inr (l, u, h e refl, refl))
  ]

  -- A purchase with points, whatever fails: the client is answered 201, or 500, or the answer is
  -- between 400 and 499 and neither the tables nor the cached balance changed.
  pub create_points_purchase-IsRefused :
      let out = create_points_purchase redis user_id product_id w in
      (status_of out.0 ≡ 201) ⊎ (status_of out.0 ≡ 500) ⊎ IsRefused out
  unfolding create_points_purchase purchase_with_points
  create_points_purchase-IsRefused =
      paid-IsRefused (purchase_product user_id product_id w.conn)
        ((purchase_product-Refuses user_id product_id).kept w.conn)
