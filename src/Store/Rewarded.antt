-- ===== src/Store/Rewarded.antt =====
-- services/store/internal/api: repository/rewarded_rate_limiter.go,
-- repository/rewarded_repository.go and service/rewarded_service.go.
use full.Base.{ℕ, Bool, true, false, ◌&&◌, ◌==◌, nat_eq, string_eq, if◌then◌else◌}
use full.Base.Int.{ℤ, pos, leb_ℤ}
use full.Base.Db.{Db, Conn, Result, ok, err, unavailable, raised, pure, statement, ◌>>=◌}
use full.Base.Redis.Strings.{Counters}
use full.Store.Tables.{kind_distraction, Product, Tables, quantity}
use full.Store.Points.{NoFault}
use full.Store.Orders
use full.Store.Orders.{get_product, grant_item}
use full.Store.Service.{Fault, not_grantable, rate_limited, in_service}

-- GrantFreeDistraction of the repository; the statement is that of a granted distraction.
unfoldable pub grant_unit : ℕ → ℕ → Db Orders.Fault Tables ℕ
grant_unit user_id product_id = statement λ t.
    let stocked = grant_item kind_distraction user_id product_id t.inventory in
    (quantity user_id product_id stocked, record t { inventory = stocked })

abbrev pub grantable : Product → Bool
grantable product = product.kind == kind_distraction && product.is_free

module _ (redis : Counters) where
  open redis use {Store, count, incr, expire}

  abbrev pub started : ℕ → ℕ → Db NoFault Store (Unit {0})
  started user_id n = if n == 1 then statement (λ s. (tt, expire user_id s)) else pure tt

  -- Allow
  unfoldable pub allow : ℤ → ℕ → Db NoFault Store Bool
  allow cap user_id = if leb_ℤ cap (pos 0) then pure false else (do
    n ← statement (λ s. (count (incr user_id s) user_id, incr user_id s))
    _ ← started user_id n
    pure (leb_ℤ (pos n) cap))

  pub record World : Type 0 where
    pub conn : Conn Tables
    pub counters : Conn Store

  abbrev pub granted : Conn Store → Result Orders.Fault ℕ × Conn Tables → Result Fault ℕ × World
  granted counters (r, c) = (in_service r, record { conn = c; counters = counters })

  abbrev pub limited :
      ℕ → ℕ → Conn Tables → Result NoFault Bool × Conn Store → Result Fault ℕ × World
  limited user_id product_id c (err _, k) = (err unavailable, record { conn = c; counters = k })
  limited user_id product_id c (ok false, k) =
      (err (raised rate_limited), record { conn = c; counters = k })
  limited user_id product_id c (ok true, k) = granted k (grant_unit user_id product_id c)

  abbrev pub looked_up :
      ℤ → ℕ → ℕ → Conn Store → Result Fault Product × Conn Tables → Result Fault ℕ × World
  looked_up cap user_id product_id k (err e, c) = (err e, record { conn = c; counters = k })
  looked_up cap user_id product_id k (ok product, c) =
      let spent = limited user_id product_id c (allow cap user_id k) in
      if grantable product
      then spent
      else (err (raised not_grantable), record { conn = c; counters = k })

  -- rewardedService.GrantFreeDistraction
  unfoldable pub grant_free_distraction : ℤ → ℕ → ℕ → World → Result Fault ℕ × World
  grant_free_distraction cap user_id product_id w =
      let (found, c) = get_product product_id w.conn in
      looked_up cap user_id product_id w.counters (in_service found, c)
