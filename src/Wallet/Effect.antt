-- ===== src/Wallet/Effect.antt =====
-- What a transaction that was applied has done to the wallet tables: the specification of
-- `ApplyTransaction` of backend/internal/db/wallet_repository.go.
pub mod Rows
pub mod Apply
use uitgo_monorepo.Base.{
  ℕ, String, ◌≡◌, refl, sym, Bool, true, false, Option, none, some, List, ◌∷◌, ◌==◌, ◌∙◌, ap, ◌⊎◌,
  inl, inr, Bool-cases, arith, eq_iff, if◌then◌else◌,
}
use mathlib.Core.Path.{subst}
use uitgo_monorepo.Base.Int.{ℤ, pos, ◌+ℤ◌, ◌-ℤ◌, ◌≤ℤ◌, ltb_ℤ, int64}
use uitgo_monorepo.Base.Text.{is_empty}
use uitgo_monorepo.Errors.{Error, message, wallet_insufficient_funds, wallet_invalid_amount}
use uitgo_monorepo.Base.Action.{Result, ok, err, Action, always}
use uitgo_monorepo.Base.Action.Ensures.{
  Ensures, returned, raised, Ensures-ok, Ensures-err, Ensures-mono, Ensures-bind, Ensures-raise_if,
}
use uitgo_monorepo.Wallet.{
  TransactionType, top_up, reward, deduction, other, WalletSummary, WalletTransaction,
}
use uitgo_monorepo.Wallet.Store.{
  WalletModel, WalletTransactionModel, WalletStore, WalletTables, Same, Wrote, Saved, Added,
  IsWalletStore, put_wallet,
}
use uitgo_monorepo.Wallet.Repository.{
  empty_wallet, to_summary, apply_kind, found_or_created, write_rows, transaction_row, apply_body,
  apply_transaction,
}

-- A user with no row has nothing.
abbrev pub balance_of : Option WalletModel → ℤ
balance_of none = pos 0
balance_of (some m) = m.balance

abbrev pub points_of : Option WalletModel → ℤ
points_of none = pos 0
points_of (some m) = m.reward_points

abbrev pub new_balance : TransactionType → ℤ → ℤ → ℤ
new_balance top_up amount b = int64 (b +ℤ amount)
new_balance deduction amount b = int64 (b -ℤ amount)
new_balance reward amount b = b
new_balance (other t) amount b = b

abbrev pub new_points : TransactionType → ℤ → ℤ → ℤ
new_points reward amount p = int64 (p +ℤ amount)
new_points top_up amount p = p
new_points deduction amount p = p
new_points (other t) amount p = p

-- What the type demands of the balance before it.
abbrev pub Allowed : TransactionType → ℤ → ℤ → Type 0
Allowed deduction amount b = amount ≤ℤ b
Allowed (other t) amount b = ⊥
Allowed top_up amount b = Unit
Allowed reward amount b = Unit

module _ {W : Type 0} (t : WalletTables W) where
  -- No row but the wallet of `u` differs.
  record OnlyWallet (u : String) (w w' : W) : Type 0 where
    others : (v : String) → (u == v) ≡ false → t.wallet w' v ≡ t.wallet w v
    ledgers : t.ledger w' ≡ t.ledger w

  Same-OnlyWallet : (u : String) {w w' : W} → Same t w w' → OnlyWallet u w w'
  Same-OnlyWallet u h = record { others = λ v _. cc (h.wallets); ledgers = h.ledgers }

  Wrote-OnlyWallet : (m : WalletModel) {w w' : W} → Wrote t m w w' → OnlyWallet m.user_id w w'
  Wrote-OnlyWallet m {w} {w'} h = record {
    others = λ v ne. rw h.wallets (rw ne);
    ledgers = h.ledgers;
  }

  OnlyWallet-trans :
      {u : String} {a b c : W} → OnlyWallet u a b → OnlyWallet u b c → OnlyWallet u a c
  OnlyWallet-trans h k = record {
    others = λ v ne. k.others v ne ∙ h.others v ne;
    ledgers = k.ledgers ∙ h.ledgers;
  }

  -- No user's balance or points differ, and no transaction was added.
  pub record Reads (w w' : W) : Type 0 where
    pub balances : (v : String) → balance_of (t.wallet w' v) ≡ balance_of (t.wallet w v)
    pub points : (v : String) → points_of (t.wallet w' v) ≡ points_of (t.wallet w v)
    pub ledgers : t.ledger w' ≡ t.ledger w

  pub Same-Reads : {w w' : W} → Same t w w' → Reads w w'
  Same-Reads same = record {
    balances = λ v. ap (λ f. balance_of (f v)) same.wallets;
    points = λ v. ap (λ f. points_of (f v)) same.wallets;
    ledgers = same.ledgers;
  }

  -- The row of `u` is `m`, with the balance and the points that `u` had in `w`.
  record Ready (u : String) (w : W) (m : WalletModel) (w' : W) : Type 0 where
    user : m.user_id ≡ u
    balance : m.balance ≡ balance_of (t.wallet w u)
    points : m.reward_points ≡ points_of (t.wallet w u)
    only : OnlyWallet u w w'
    kept : Reads w w'

  -- The whole effect of the transaction `tx`, which began at `w` and returned `a` at `w'`.
  pub record Applied (tx : WalletTransaction) (w : W) (a : WalletSummary × WalletTransaction)
      (w' : W) : Type 0 where
    pub nonneg : pos 0 ≤ℤ tx.amount
    pub row : WalletModel
    pub entry : WalletTransactionModel
    pub stored : t.wallet w' tx.user_id ≡ some row
    pub balance : row.balance ≡ new_balance tx.kind tx.amount (balance_of (t.wallet w tx.user_id))
    pub points :
        row.reward_points ≡ new_points tx.kind tx.amount (points_of (t.wallet w tx.user_id))
    pub allowed : Allowed tx.kind tx.amount (balance_of (t.wallet w tx.user_id))
    pub others : (v : String) → (tx.user_id == v) ≡ false → t.wallet w' v ≡ t.wallet w v
    pub logged : t.ledger w' ≡ entry ∷ t.ledger w
    pub entry_user : entry.user_id ≡ tx.user_id
    pub entry_amount : entry.amount ≡ tx.amount
    pub entry_kind : entry.kind ≡ tx.kind
    pub reported : a.0 ≡ to_summary row

  -- What the `switch` makes of a row: nothing is written yet.
  record Changed (k : TransactionType) (x : ℤ) (m m' : WalletModel) : Type 0 where
    user : m'.user_id ≡ m.user_id
    balance : m'.balance ≡ new_balance k x m.balance
    points : m'.reward_points ≡ new_points k x m.reward_points
    allowed : Allowed k x m.balance

  -- Why a call of `ApplyTransaction` may return the error `e`, and nothing else is one.
  pub data Refusal (Fault : Error → Type 0) (tx : WalletTransaction) (w : W) : Error → Type 0 where
    fault : {e : Error} → Fault e → Refusal Fault tx w e
    no_user : is_empty tx.user_id ≡ true → Refusal Fault tx w (message "user id required")
    negative :
        ltb_ℤ tx.amount (pos 0) ≡ true → Refusal Fault tx w (message "amount must be non-negative")
    short :
        tx.kind ≡ deduction
        → ¬ (tx.amount ≤ℤ balance_of (t.wallet w tx.user_id))
        → Refusal Fault tx w wallet_insufficient_funds
    unknown_kind : (k : String) → tx.kind ≡ other k → Refusal Fault tx w wallet_invalid_amount

-- Why the `switch` refuses a type.
data Unfit (k : TransactionType) (x b : ℤ) : Error → Type 0 where
  too_short : k ≡ deduction → ¬ (x ≤ℤ b) → Unfit k x b wallet_insufficient_funds
  no_kind : (s : String) → k ≡ other s → Unfit k x b wallet_invalid_amount
