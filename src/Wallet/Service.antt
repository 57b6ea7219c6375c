-- ===== src/Wallet/Service.antt =====
-- `WalletService` of backend/internal/domain/wallet_service.go, over any wallet repository.
pub mod Gate
pub mod Kept
pub mod History
use uitgo_monorepo.Base.{
  ℕ, String, Bool, true, false, ◌||◌, Option, none, some, List, if◌then◌else◌,
}
use uitgo_monorepo.Base.Int.{ℤ, pos, ltb_ℤ, leb_ℤ}
use uitgo_monorepo.Base.Text.{is_empty}
use uitgo_monorepo.Errors.{message, wallet_invalid_amount, wallet_insufficient_funds}
use uitgo_monorepo.Base.Action.{Result, ok, err, Action, pure, raise, raise_if, ◌>>=◌, ◌>>◌}
use uitgo_monorepo.Wallet.{
  TransactionType, top_up, reward, deduction, other, WalletSummary, WalletTransaction,
  WalletRepository, WalletOperations,
}
use uitgo_monorepo.Wallet.Config.{WalletServiceConfig, fare_for_service}

-- A transaction as the service fills it in: no id and no time.
abbrev pub request : String → ℤ → TransactionType → WalletTransaction
request u amount kind = record {
  id = "";
  user_id = u;
  amount = amount;
  kind = kind;
  created_at = 0;
}

-- The `switch tx.Type`: whether the type is refused at this amount.
unfoldable pub bad_kind : WalletServiceConfig → TransactionType → ℤ → Bool
bad_kind cfg top_up x = ltb_ℤ x cfg.min_top_up_amount || ltb_ℤ cfg.max_top_up_amount x
bad_kind cfg deduction x = false
bad_kind cfg reward x = false
bad_kind cfg (other t) x = true

module _ {W : Type 0} (repo : WalletRepository W) (cfg : WalletServiceConfig) where
  unfoldable pub summary : String → Action W WalletSummary
  summary u = do raise_if (is_empty u) (message "user id required"); repo.get u

  unfoldable pub transactions : String → ℤ → ℤ → Action W (List WalletTransaction × ℤ)
  transactions u limit offset = do
    raise_if (is_empty u) (message "user id required")
    repo.list_transactions u
        (if leb_ℤ limit (pos 0) || ltb_ℤ (pos 100) limit then pos 20 else limit)
        (if ltb_ℤ offset (pos 0) then pos 0 else offset)

  unfoldable pub apply_transaction :
      Option WalletTransaction → Action W (WalletSummary × WalletTransaction)
  unfolding bad_kind
  apply_transaction none = raise (message "transaction required")
  apply_transaction (some tx) = do
    raise_if (is_empty tx.user_id) (message "user id required")
    raise_if (leb_ℤ tx.amount (pos 0)) wallet_invalid_amount
    raise_if (bad_kind cfg tx.kind tx.amount) wallet_invalid_amount
    repo.apply_transaction (some tx)

  unfoldable pub top_up_wallet : String → ℤ → Action W WalletSummary
  top_up_wallet u amount = do
    raise_if (is_empty u) (message "user id required")
    raise_if (ltb_ℤ amount cfg.min_top_up_amount || ltb_ℤ cfg.max_top_up_amount amount)
        wallet_invalid_amount
    (after, tx) ← apply_transaction (some (request u amount top_up))
    pure after

  -- The fare against the balance that was read.
  unfoldable pub covers : ℤ → Result WalletSummary × W → (Result (Unit {0}) × ℤ) × W
  covers fare (err e, w) = ((err e, pos 0), w)
  covers fare (ok found, w) =
      if ltb_ℤ found.balance fare
      then ((err wallet_insufficient_funds, fare), w)
      else ((ok tt, fare), w)

  unfoldable pub ensure_balance_for_trip : String → String → W → (Result (Unit {0}) × ℤ) × W
  ensure_balance_for_trip u service w =
      if is_empty u
      then ((err (message "user id required"), pos 0), w)
      else covers (fare_for_service cfg service) (repo.get u w)

  -- The summary of a transaction that was applied, beside its amount.
  unfoldable pub charged :
      ℤ → Result (WalletSummary × WalletTransaction) × W → (Result WalletSummary × ℤ) × W
  charged amount (err e, w) = ((err e, amount), w)
  charged amount (ok (after, tx), w) = ((ok after, amount), w)

  unfoldable pub deduct_trip_fare : String → String → W → (Result WalletSummary × ℤ) × W
  deduct_trip_fare u service w =
      if is_empty u
      then ((err (message "user id required"), pos 0), w)
      else let fare = fare_for_service cfg service in
        charged fare (apply_transaction (some (request u fare deduction)) w)

  unpaid : Result WalletSummary × W → (Result WalletSummary × ℤ) × W
  unpaid (r, w) = ((r, pos 0), w)

  unfoldable pub reward_trip_completion : String → W → (Result WalletSummary × ℤ) × W
  unfolding unpaid
  reward_trip_completion u w =
      if is_empty u
      then ((err (message "user id required"), pos 0), w)
      else if leb_ℤ cfg.reward_points_per_trip (pos 0)
      then unpaid (repo.get u w)
      else charged cfg.reward_points_per_trip
          (apply_transaction (some (request u cfg.reward_points_per_trip reward)) w)

  unfoldable pub wallet_service : WalletOperations W
  unfolding ensure_balance_for_trip deduct_trip_fare reward_trip_completion
  wallet_service = record {
    ensure_balance_for_trip = ensure_balance_for_trip;
    deduct_trip_fare = deduct_trip_fare;
    reward_trip_completion = reward_trip_completion;
  }
