-- ===== src/Store/Points.antt =====
-- services/store/internal/api/repository/points_repository.go, and points_service.go with the
-- cached balances of points_cache_repository.go.
use full.Base.{
  ℕ, Bool, true, false, Option, none, some, List, ◌∷◌, String, ◌==◌, nat_eq, string_eq,
  if◌then◌else◌,
}
use full.Base.Int.{ℤ, ◌+ℤ◌}
use full.Base.Dict
use full.Base.Dict.{Dict}
use full.Base.Db.{Db, pure, statement, transaction, ◌>>=◌}
use full.Store.Tables.{Entry, Tables, or_zero, balance, recorded}

-- refArg: an empty reference is NULL.
abbrev pub ref_arg : String → Option String
ref_arg ref_id = if ref_id == "" then none else some ref_id

abbrev pub repeated : ℕ → String → Option String → List Entry → Bool
repeated user_id reason none es = false
repeated user_id reason (some r) es = recorded user_id reason r es

-- insertLedgerSQL: whether a row came back.
unfoldable pub insert_ledger : ℕ → ℤ → String → Option String → Tables → Bool × Tables
insert_ledger user_id delta reason ref_id t =
    if repeated user_id reason ref_id t.ledger then (false, t) else (
      true,
      record t {
        ledger =
            record { user_id = user_id; delta = delta; reason = reason; ref_id = ref_id }
            ∷ t.ledger;
      },
    )

-- upsertBalanceSQL
unfoldable pub upsert_balance : ℕ → ℤ → Tables → ℤ × Tables
upsert_balance user_id delta t =
    let b = balance t user_id +ℤ delta in (b, record t { balances = Dict.put t.balances user_id b })

-- No operation of this repository raises an error of its own.
pub data NoFault : Type 0 where

abbrev pub credit_inserted : ℕ → ℤ → Bool → Db NoFault Tables (ℤ × Bool)
credit_inserted user_id delta true = do
  new_balance ← statement (upsert_balance user_id delta)
  pure (new_balance, true)
credit_inserted user_id delta false = do
  found ← statement (λ t. (Dict.get t.balances user_id, t))
  pure (or_zero found, false)

unfoldable pub credit_tx : ℕ → ℤ → String → String → Db NoFault Tables (ℤ × Bool)
credit_tx user_id delta reason ref_id = do
  inserted ← statement (insert_ledger user_id delta reason (ref_arg ref_id))
  credit_inserted user_id delta inserted

-- pointsRepository.Credit
unfoldable pub credit : ℕ → ℤ → String → String → Db NoFault Tables (ℤ × Bool)
credit user_id delta reason ref_id = transaction (credit_tx user_id delta reason ref_id)

-- pointsRepository.GetBalance
unfoldable pub get_balance : ℕ → Db NoFault Tables ℤ
get_balance user_id = do
  found ← statement λ t. (Dict.get t.balances user_id, t)
  pure (or_zero found)
