-- ===== src/Store/Tables.antt =====
-- The tables of services/store/migrations and the domain types of
-- services/store/internal/api/domain: products, purchases, inventory, points_balance and
-- points_ledger. Identities grow from the sequence; amounts are unbounded here, where PostgreSQL
-- refuses one outside BIGINT.
use full.Base.{
  ℕ, Bool, false, ◌&&◌, ◌||◌, Option, none, some, List, [], ◌∷◌, String, ◌==◌, nat_eq, string_eq,
  if◌then◌else◌,
}
use full.Base.Int.{ℤ, pos}
use full.Base.Dict
use full.Base.Dict.{Dict}

-- KindDistraction, KindEdit; a kind is a text.
abbrev pub kind_distraction : String
kind_distraction = "distraction"

abbrev pub kind_edit : String
kind_edit = "edit"

-- domain.Product, but its tier and name, which no operation reads.
pub record Product : Type 0 where
  pub id : ℕ
  pub kind : String
  pub price_cents : ℤ
  pub is_free : Bool
  pub points_price : Option ℤ

pub data Status : Type 0 where
  pending paid : Status

-- A row of `purchases`: domain.Purchase and its stripe_event_id.
pub record Purchase : Type 0 where
  pub id : ℕ
  pub user_id : ℕ
  pub product_id : ℕ
  pub provider : String
  pub provider_ref : Option String
  pub amount_cents : ℤ
  pub status : Status
  pub stripe_event_id : Option String

pub record Item : Type 0 where
  pub user_id : ℕ
  pub product_id : ℕ
  pub quantity : ℕ

-- A row of `points_ledger`; `ref_id` is none for NULL.
pub record Entry : Type 0 where
  pub user_id : ℕ
  pub delta : ℤ
  pub reason : String
  pub ref_id : Option String

pub record Tables : Type 0 where
  pub products : List Product
  pub purchases : List Purchase
  pub inventory : List Item
  pub balances : Dict ℕ ℤ
  pub ledger : List Entry
  pub next_purchase_id : ℕ

abbrev pub or_zero : Option ℤ → ℤ
or_zero none = pos 0
or_zero (some b) = b

-- The points of a user: no row counts as 0.
abbrev pub balance : Tables → ℕ → ℤ
balance t user_id = or_zero (Dict.get t.balances user_id)

-- The row would violate points_ledger_user_id_reason_ref_id_key.
abbrev pub clashes : ℕ → String → String → Entry → Bool
clashes user_id reason ref_id e =
    e.user_id == user_id
    && e.reason == reason
    && (elim e.ref_id [ none ↦ false | some r ↦ r == ref_id ])

unfoldable pub recorded : ℕ → String → String → List Entry → Bool
recorded user_id reason ref_id [] = false
recorded user_id reason ref_id (e ∷ es) =
    clashes user_id reason ref_id e || recorded user_id reason ref_id es

-- The units of a product that a user holds.
unfoldable pub quantity : ℕ → ℕ → List Item → ℕ
quantity user_id product_id [] = 0
quantity user_id product_id (i ∷ is) =
    if i.user_id == user_id && i.product_id == product_id
    then i.quantity
    else quantity user_id product_id is
