-- ===== src/Store/Cached.antt =====
-- The cache of balances: services/store/internal/api/service/points_service.go over
-- points_cache_repository.go.
use full.Base.{
  ℕ, ◌≡◌, refl, ◌⊎◌, inl, inr, none, some, List, [], ◌∷◌, String, arith, nat_eq, string_eq,
  Option-cases,
}
use full.Base.Int.{ℤ, ◌+ℤ◌, ◌-ℤ◌}
use full.Base.Dict
use full.Base.Dict.{Dict, get-put}
use full.Base.Db.{Conn, ok, pure, raise, statement, transaction, ◌>>=◌}
use full.Base.Redis.Strings.{Strings}
use full.Store.Tables.{Tables, balance}
use full.Store.Points
use full.Store.Points.{NoFault, insert_ledger, upsert_balance, credit_tx, ref_arg, repeated}
use full.Store.Ledger.{credit-Atomic}
use full.Store.Orders
use full.Store.Orders.{find_product, get_product, is_owned, purchase_with_points_tx}
use full.Store.Spending.{spend_effect, purchase_with_points-Atomic}
use full.Store.Service.{
  purchase_product, purchase_with_points, World, PointsCredit, credit_amount, credit, get_balance,
  cached_balance, set_balance, delete_balance,
}

-- A purchase with points changes nobody else's balance, and nobody's where it is refused.
spend_effect-balance :
    (kind : String) (user_id product_id : ℕ) (price : ℤ) (u : ℕ) (t : Tables)
    → let out = spend_effect kind user_id product_id price t in
      (balance out.1 u ≡ balance t u) ⊎ ((user_id ≡ u) × (out.0 ≡ ok (balance out.1 u)))
spend_effect-balance kind user_id product_id price u t =
    elim (Option-cases (Dict.get t.balances user_id)) [
      | inl e ↦ ground (arith, e)
      | inr (b, e) ↦ ground (arith, e, get-put t.balances user_id u (b -ℤ price))
    ]

module _ (redis : Strings ℤ) where
  open redis use {read, set, del, read-set, read-del}

  -- A cached balance is the one in the table.
  abbrev pub IsFreshAt : ℕ → World redis → Type 0
  IsFreshAt u w =
      (read w.cache.tables u ≡ none) ⊎ (read w.cache.tables u ≡ some (balance w.conn.tables u))

  abbrev pub IsFresh : World redis → Type 0
  IsFresh w = (u : ℕ) → IsFreshAt u w

  -- Neither the database nor Redis is going to fail.
  abbrev pub IsQuiet : World redis → Type 0
  IsQuiet w = (w.conn.fates ≡ []) × (w.cache.fates ≡ [])

  -- While nothing fails, a read answers the balance in the table from a cache that is fresh, and
  -- leaves it fresh for every user, whether the balance was cached or not.
  pub get_balance-IsFresh :
      (user_id u : ℕ) (w : World redis)
      → IsQuiet w
      → IsFresh w
      → let out = get_balance redis user_id w in
        (out.0 ≡ ok (balance w.conn.tables user_id))
        × (out.1.conn.tables ≡ w.conn.tables)
        × IsQuiet out.1
        × IsFreshAt u out.1
  unfolding get_balance Points.get_balance cached_balance set_balance statement pure ◌>>=◌
  get_balance-IsFresh user_id u w q f =
      ground
        (arith, f user_id, f u, read-set w.cache.tables user_id u (balance w.conn.tables user_id))

  credit_quiet :
      (user_id : ℕ) (delta : ℤ) (reason ref_id : String) (c : Conn Tables)
      → c.fates ≡ []
      → (Points.credit user_id delta reason ref_id c).1.fates ≡ []
  unfolding Points.credit transaction credit_tx statement pure ◌>>=◌
  credit_quiet user_id delta reason ref_id c q = ground arith

  -- While nothing fails, a credit leaves a fresh cache fresh for every user, whether it adds to the
  -- balance, repeats a reference or is refused.
  pub credit-IsFresh :
      (amounts : Dict String ℤ) (r : PointsCredit) (u : ℕ) (w : World redis)
      → IsQuiet w
      → IsFresh w
      → let out = credit redis amounts r w in IsQuiet out.1 × IsFreshAt u out.1
  unfolding credit delete_balance statement
  credit-IsFresh amounts r u w q f =
      let delta = credit_amount amounts r in
      ground (
        arith,
        f u,
        credit_quiet r.user_id delta r.reason r.ref_id w.conn,
        credit-Atomic r.user_id delta r.reason r.ref_id w.conn,
        get-put w.conn.tables.balances r.user_id u (balance w.conn.tables r.user_id +ℤ delta),
        read-del w.cache.tables r.user_id u,
      )

  abbrev still : Tables → Conn Tables
  still t = record { tables = t; fates = [] }

  purchase_quiet :
      (kind : String) (user_id product_id : ℕ) (price : ℤ) (c : Conn Tables)
      → c.fates ≡ []
      → (Orders.purchase_with_points kind user_id product_id price c).1.fates ≡ []
  unfolding Orders.purchase_with_points transaction purchase_with_points_tx statement pure raise
      ◌>>=◌
  purchase_quiet kind user_id product_id price c q = ground arith

  -- While nothing fails, a purchase with points leaves a fresh cache fresh for every user, whether
  -- it is answered or refused.
  pub purchase_with_points-IsFresh :
      (user_id product_id u : ℕ) (w : World redis)
      → IsQuiet w
      → IsFresh w
      → let out = purchase_with_points redis user_id product_id w in
        IsQuiet out.1 × IsFreshAt u out.1
  unfolding purchase_with_points purchase_product get_product is_owned delete_balance statement pure
      raise ◌>>=◌
  purchase_with_points-IsFresh user_id product_id u w q f =
      elim (Option-cases (find_product product_id w.conn.tables.products)) [
        | inl e ↦ ground (arith, e, f u)
        | inr (product, e) ↦ elim (Option-cases product.points_price) [
          | inl n ↦ ground (arith, e, n, f u)
          | inr (price, n) ↦ ground (
            arith,
            e,
            n,
            f u,
            purchase_quiet product.kind user_id product_id price (still w.conn.tables) refl,
            purchase_with_points-Atomic product.kind user_id product_id price (still w.conn.tables),
            spend_effect-balance product.kind user_id product_id price u w.conn.tables,
            read-del w.cache.tables user_id u,
          )
        ]
      ]

-- The requests that read or change a balance.
pub data Request : Type 0 where
  credit_points : PointsCredit → Request
  buy_with_points : ℕ → ℕ → Request
  ask_balance : ℕ → Request

module _ (redis : Strings ℤ) (amounts : Dict String ℤ) where
  unfoldable pub serve : List Request → World redis → World redis
  serve [] w = w
  serve (credit_points r ∷ rs) w = serve rs (credit redis amounts r w).1
  serve (buy_with_points u p ∷ rs) w = serve rs (purchase_with_points redis u p w).1
  serve (ask_balance u ∷ rs) w = serve rs (get_balance redis u w).1

  serve-IsFresh :
      (rs : List Request) (w : World redis)
      → IsQuiet redis w
      → IsFresh redis w
      → IsQuiet redis (serve rs w) × IsFresh redis (serve rs w)
  unfolding serve
  serve-IsFresh [] w q f = (q, f)
  serve-IsFresh (credit_points r ∷ rs) w q f =
      serve-IsFresh rs (credit redis amounts r w).1 (credit-IsFresh redis amounts r 0 w q f).0
        (λ u. (credit-IsFresh redis amounts r u w q f).1)
  serve-IsFresh (buy_with_points v p ∷ rs) w q f =
      serve-IsFresh rs (purchase_with_points redis v p w).1
        (purchase_with_points-IsFresh redis v p 0 w q f).0
        (λ u. (purchase_with_points-IsFresh redis v p u w q f).1)
  serve-IsFresh (ask_balance v ∷ rs) w q f =
      serve-IsFresh rs (get_balance redis v w).1 (get_balance-IsFresh redis v 0 w q f).2
        (λ u. (get_balance-IsFresh redis v u w q f).3)

  -- While nothing fails, after any sequence of credits, purchases with points and reads from a
  -- fresh cache, a read answers the balance in the table.
  pub get_balance-serve :
      (rs : List Request) (w : World redis) (user_id : ℕ)
      → IsQuiet redis w
      → IsFresh redis w
      → (get_balance redis user_id (serve rs w)).0 ≡ ok (balance (serve rs w).conn.tables user_id)
  get_balance-serve rs w user_id q f =
      let (r, s) = serve-IsFresh rs w q f in
      (get_balance-IsFresh redis user_id user_id (serve rs w) r s).0
