-- ===== src/Store/Owned.antt =====
-- An edit that the user owns already, in services/store/internal/api/service/purchase_service.go.
use full.Base.{ℕ, ◌≡◌, ◌≤◌, ◌⊎◌, Option, some, String, arith, nat_eq, string_eq}
use full.Base.Int.{ℤ}
use full.Base.Db.{Conn, Result, err, unavailable, raised, pure, raise, statement, ◌>>=◌}
use full.Store.Tables.{kind_edit, Product, Tables, quantity}
use full.Store.Orders.{find_product, get_product, is_owned}
use full.Store.Service.{Fault, already_owned, money_only, purchase_product, initiate_purchase}

-- Nothing was bought: the tables are as they were, and the answer is an error of the connection,
-- or that the product is owned or has no price in points.
abbrev pub Refused : {A : Type 0} → Conn Tables → Result Fault A × Conn Tables → Type 0
Refused c out =
    (out.1.tables ≡ c.tables)
    × ((out.0 ≡ err unavailable)
        ⊎ (out.0 ≡ err (raised already_owned))
        ⊎ (out.0 ≡ err (raised money_only)))

module _ (user_id product_id : ℕ) (product : Product) (c : Conn Tables) where
  abbrev pub IsOwnedEdit : Type 0
  IsOwnedEdit =
      (find_product product_id c.tables.products ≡ some product)
      × (product.kind ≡ kind_edit)
      × (1 ≤ quantity user_id product_id c.tables.inventory)

  -- An edit that the user owns is never paid for again with points, whatever fails.
  pub purchase_product-Refused : IsOwnedEdit → Refused c (purchase_product user_id product_id c)
  unfolding purchase_product get_product is_owned statement pure raise ◌>>=◌
  purchase_product-Refused h = ground (arith, string_eq.same_iff product.kind kind_edit)

  -- No payment is started for an edit that the user owns, whatever fails.
  pub initiate_purchase-Refused :
      (intent : ℕ → ℤ → Option (String × String))
      → IsOwnedEdit
      → Refused c (initiate_purchase intent user_id product_id c)
  unfolding initiate_purchase get_product is_owned statement pure raise ◌>>=◌
  initiate_purchase-Refused intent h = ground (arith, string_eq.same_iff product.kind kind_edit)
