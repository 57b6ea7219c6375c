-- ===== src/Wallet.antt =====
-- The wallet's data and the interface of its repository (backend/internal/domain/wallet.go).
-- Money and points are `int64`; a time is its count of nanoseconds, with 0 for the zero time.
pub mod Store
pub mod Repository
pub mod Effect
pub mod Balance
pub mod Memory
mod Tests
pub mod Config
pub mod Service
use uitgo_monorepo.Base.{ℕ, String, Option, List}
use uitgo_monorepo.Base.Int.{ℤ}
use uitgo_monorepo.Base.Action.{Result, Action}

-- The transaction types are texts; `other` is any text but the three constants.
pub data TransactionType : Type 0 where
  top_up reward deduction : TransactionType
  other : String → TransactionType

pub record WalletSummary : Type 0 where
  pub user_id : String
  pub balance : ℤ
  pub reward_points : ℤ
  pub updated_at : ℕ

pub record WalletTransaction : Type 0 where
  pub id : String
  pub user_id : String
  pub amount : ℤ
  pub kind : TransactionType
  pub created_at : ℕ

-- `ApplyTransaction` is given a pointer, `none` for nil, and writes the id and the time through it:
-- the transaction comes back beside the summary.
pub record WalletRepository (W : Type 0) : Type 0 where
  pub get : String → Action W WalletSummary
  pub list_transactions : String → ℤ → ℤ → Action W (List WalletTransaction × ℤ)
  pub apply_transaction : Option WalletTransaction → Action W (WalletSummary × WalletTransaction)

-- The part of the wallet that the trip service uses. Go returns an amount beside the error, which
-- stands beside the result here.
pub record WalletOperations (W : Type 0) : Type 0 where
  pub ensure_balance_for_trip : String → String → W → (Result (Unit {0}) × ℤ) × W
  pub deduct_trip_fare : String → String → W → (Result WalletSummary × ℤ) × W
  pub reward_trip_completion : String → W → (Result WalletSummary × ℤ) × W
