-- ===== src/Wallet/Repository.antt =====
-- backend/internal/db/wallet_repository.go, over the statements of Wallet/Store.
use uitgo_monorepo.Base.{ℕ, String, Option, none, some, List, map}
use uitgo_monorepo.Base.Int.{ℤ, pos, ◌+ℤ◌, ◌-ℤ◌, ltb_ℤ, int64}
use uitgo_monorepo.Base.Text.{is_empty}
use uitgo_monorepo.Errors.{message, wallet_insufficient_funds, wallet_invalid_amount}
use uitgo_monorepo.Base.Action.{Action, pure, raise, always, raise_if, ◌>>=◌, ◌>>◌}
use uitgo_monorepo.Wallet.{
  TransactionType, top_up, reward, deduction, other, WalletSummary, WalletTransaction,
  WalletRepository,
}
use uitgo_monorepo.Wallet.Store.{WalletModel, WalletTransactionModel, WalletStore}

abbrev pub empty_wallet : String → ℕ → WalletModel
empty_wallet u now = record {
  user_id = u;
  balance = pos 0;
  reward_points = pos 0;
  updated_at = now;
}

abbrev pub to_summary : WalletModel → WalletSummary
to_summary m = record {
  user_id = m.user_id;
  balance = m.balance;
  reward_points = m.reward_points;
  updated_at = m.updated_at;
}

abbrev pub to_transaction : WalletTransactionModel → WalletTransaction
to_transaction row = record {
  id = row.id;
  user_id = row.user_id;
  amount = row.amount;
  kind = row.kind;
  created_at = row.created_at;
}

-- The `switch tx.Type` of `ApplyTransaction`: the row to save, or why there is none.
unfoldable pub apply_kind : {W : Type 0} → TransactionType → ℤ → WalletModel → Action W WalletModel
apply_kind top_up amount m = pure (record m { balance = int64 (m.balance +ℤ amount) })
apply_kind deduction amount m =
    raise_if (ltb_ℤ m.balance amount) wallet_insufficient_funds
    >> pure (record m { balance = int64 (m.balance -ℤ amount) })
apply_kind reward amount m = pure (record m { reward_points = int64 (m.reward_points +ℤ amount) })
apply_kind (other t) amount m = raise wallet_invalid_amount

module _ {W : Type 0} (s : WalletStore W) where
  -- The row that was found, or a new row of a user that has none.
  unfoldable pub found_or_created : String → Option WalletModel → Action W WalletModel
  found_or_created u (some m) = pure m
  found_or_created u none = do
    now ← always s.now
    s.create_wallet (empty_wallet u now)
    pure (empty_wallet u now)

  unfoldable pub get : String → Action W WalletSummary
  unfolding found_or_created
  get u = do
    raise_if (is_empty u) (message "user id required")
    found ← s.find_wallet u
    model ← found_or_created u found
    pure (to_summary model)

  unfoldable pub list_transactions : String → ℤ → ℤ → Action W (List WalletTransaction × ℤ)
  list_transactions u limit offset = do
    raise_if (is_empty u) (message "user id required")
    total ← s.count_transactions u
    rows ← s.find_transactions u limit offset
    pure (map to_transaction rows, total)

  -- The row of the transaction; the database fills in a time that is zero.
  abbrev pub transaction_row : WalletTransaction → String → WalletTransactionModel
  transaction_row tx id = record {
    id = id;
    user_id = tx.user_id;
    amount = tx.amount;
    kind = tx.kind;
    created_at = tx.created_at;
  }

  -- The writes of that function: the changed wallet, then the row of the transaction.
  unfoldable pub write_rows :
      WalletTransaction → WalletModel → Action W (WalletSummary × WalletTransaction)
  write_rows tx changed = do
    now ← always s.now
    saved ← s.save_wallet (record changed { updated_at = now })
    id ← always s.new_id
    row ← s.create_transaction (transaction_row tx id)
    pure (to_summary saved, record tx { id = row.id; created_at = row.created_at })

  -- The function that `ApplyTransaction` runs in a database transaction.
  unfoldable pub apply_body : WalletTransaction → Action W (WalletSummary × WalletTransaction)
  apply_body tx = do
    found ← s.lock_wallet tx.user_id
    wallet ← found_or_created tx.user_id found
    changed ← apply_kind tx.kind tx.amount wallet
    write_rows tx changed

  unfoldable pub apply_transaction :
      Option WalletTransaction → Action W (WalletSummary × WalletTransaction)
  apply_transaction none = raise (message "transaction required")
  apply_transaction (some tx) = do
    raise_if (is_empty tx.user_id) (message "user id required")
    raise_if (ltb_ℤ tx.amount (pos 0)) (message "amount must be non-negative")
    s.transaction (apply_body tx)

  unfoldable pub wallet_repository : WalletRepository W
  unfolding get list_transactions apply_transaction
  wallet_repository = record {
    get = get;
    list_transactions = list_transactions;
    apply_transaction = apply_transaction;
  }
