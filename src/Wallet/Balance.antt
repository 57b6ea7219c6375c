-- ===== src/Wallet/Balance.antt =====
-- Invariants of the wallet tables under `ApplyTransaction` of
-- backend/internal/db/wallet_repository.go: the wallets agree with the ledger of transactions, and
-- no balance is negative.
use uitgo_monorepo.Base.{
  String, ◌≡◌, sym, ap, ◌∙◌, ◌+◌, ◌<◌, ◌^◌, false, Option, some, List, [], ◌∷◌, ◌==◌, eq_iff,
  if◌then◌else◌, inl, inr, Bool-cases,
}
use mathlib.Core.Path.{subst}
use uitgo_monorepo.Base.Int.{
  pos_part, ℤ, pos, ◌+ℤ◌, ◌-ℤ◌, ◌≤ℤ◌, int64, int64-+ℤ, int64--ℤ, int_laws, InRange64, int64-id,
  +ℤ-fits, -ℤ-fits,
}
use uitgo_monorepo.Errors.{Error}
use uitgo_monorepo.Base.Action.Ensures.{Ensures, Ensures-mono}
use uitgo_monorepo.Wallet.{
  TransactionType, top_up, reward, deduction, other, WalletSummary, WalletTransaction,
}
use uitgo_monorepo.Wallet.Store.{
  WalletModel, WalletTransactionModel, WalletStore, WalletTables, Same, IsWalletStore,
}
use uitgo_monorepo.Wallet.Repository.{apply_transaction}
use uitgo_monorepo.Wallet.Effect.Apply.{apply_transaction-Applied}
use uitgo_monorepo.Wallet.Effect.{balance_of, points_of, new_balance, new_points, Allowed, Applied}

-- What a ledger row adds to a balance and to the points.
abbrev pub credit : TransactionType → ℤ → ℤ
credit top_up x = x
credit deduction x = pos 0 -ℤ x
credit reward x = pos 0
credit (other s) x = pos 0

abbrev pub earned : TransactionType → ℤ → ℤ
earned reward x = x
earned top_up x = pos 0
earned deduction x = pos 0
earned (other s) x = pos 0

-- The exact sums of a user's rows, with no wrap-around.
module _ (worth : TransactionType → ℤ → ℤ) (u : String) where
  abbrev pub total : List WalletTransactionModel → ℤ
  total [] = pos 0
  total (r ∷ rows) = if r.user_id == u then worth r.kind r.amount +ℤ total rows else total rows

new_balance-credit :
    (k : TransactionType) (x b : ℤ) → new_balance k x (int64 b) ≡ int64 (credit k x +ℤ b)
new_balance-credit top_up x b = int64-+ℤ b x ∙ ap int64 (omega int_laws)
new_balance-credit deduction x b = int64--ℤ b x ∙ ap int64 (omega int_laws)
new_balance-credit reward x b = ap int64 (omega int_laws)
new_balance-credit (other s) x b = ap int64 (omega int_laws)

new_points-earned :
    (k : TransactionType) (x p : ℤ) → new_points k x (int64 p) ≡ int64 (earned k x +ℤ p)
new_points-earned top_up x p = ap int64 (omega int_laws)
new_points-earned deduction x p = ap int64 (omega int_laws)
new_points-earned reward x p = int64-+ℤ p x ∙ ap int64 (omega int_laws)
new_points-earned (other s) x p = ap int64 (omega int_laws)

-- Room for a credit of `x`.
abbrev pub Room : TransactionType → ℤ → ℤ → Type 0
Room top_up x b = pos_part b + pos_part x < 2 ^ 63
Room reward x b = Unit
Room deduction x b = Unit
Room (other s) x b = Unit

new_balance-solvent :
    (k : TransactionType) (x b : ℤ)
    → pos 0 ≤ℤ x
    → Allowed k x b
    → Room k x b
    → pos 0 ≤ℤ b
    → InRange64 b
    → (pos 0 ≤ℤ new_balance k x b) × InRange64 (new_balance k x b)
new_balance-solvent top_up x b n al room nb fits =
    let f = +ℤ-fits b x nb n room in rw (int64-id (b +ℤ x) f.1) f
new_balance-solvent deduction x b n al room nb fits =
    let f = -ℤ-fits b x n al fits in rw (int64-id (b -ℤ x) f.1) f
new_balance-solvent reward x b n al room nb fits = (nb, fits)
new_balance-solvent (other s) x b n al room nb fits = (nb, fits)

module _ {W : Type 0} (t : WalletTables W) where
  -- Every wallet holds what its user's ledger rows add up to, modulo 2^64 as the machine counts.
  pub record IsAccounted (w : W) : Type 0 where
    pub balances : (u : String) → balance_of (t.wallet w u) ≡ int64 (total credit u (t.ledger w))
    pub points : (u : String) → points_of (t.wallet w u) ≡ int64 (total earned u (t.ledger w))

  -- No balance is negative, and each is a number of its type.
  pub record IsSolvent (w : W) : Type 0 where
    pub nonneg : (u : String) → pos 0 ≤ℤ balance_of (t.wallet w u)
    pub fits : (u : String) → InRange64 (balance_of (t.wallet w u))

  pub Same-IsAccounted : {w w' : W} → Same t w w' → IsAccounted w → IsAccounted w'
  Same-IsAccounted same h = record {
    balances = λ u. rw (same.wallets, same.ledgers) (h.balances u);
    points = λ u. rw (same.wallets, same.ledgers) (h.points u);
  }

  -- One measure of a wallet against the sum of its rows, for balances and for points alike.
  module _ (worth : TransactionType → ℤ → ℤ) (new : TransactionType → ℤ → ℤ → ℤ)
      (held : Option WalletModel → ℤ)
      (agree : (k : TransactionType) (x b : ℤ) → new k x (int64 b) ≡ int64 (worth k x +ℤ b)) where
    total_of_own :
        (u : String) (r : WalletTransactionModel) (rows : List WalletTransactionModel)
        → r.user_id ≡ u
        → total worth u (r ∷ rows) ≡ worth r.kind r.amount +ℤ total worth u rows
    total_of_own u r rows e = rw ((eq_iff r.user_id u).1 e)

    total_after :
        {tx : WalletTransaction} {w w' : W} {a : WalletSummary × WalletTransaction}
        (d : Applied t tx w a w')
        → held (some d.row) ≡ new tx.kind tx.amount (held (t.wallet w tx.user_id))
        → ((u : String) → held (t.wallet w u) ≡ int64 (total worth u (t.ledger w)))
        → (u : String) → held (t.wallet w' u) ≡ int64 (total worth u (t.ledger w'))
    total_after {tx} {w} {w'} d moved h u = elim (Bool-cases (tx.user_id == u)) [
      | inl is ↦
          let eu : tx.user_id ≡ u = (eq_iff tx.user_id u).0 is in
          subst (λ v. held (t.wallet w' v) ≡ int64 (total worth v (t.ledger w'))) eu
            (ap held d.stored
              ∙ moved
              ∙ ap (new tx.kind tx.amount) (h tx.user_id)
              ∙ agree tx.kind tx.amount (total worth tx.user_id (t.ledger w))
              ∙ ap int64 (sym own))
      | inr isnt ↦ ap held (d.others u isnt) ∙ h u ∙ ap int64 (sym (foreign isnt))
    ]
      where
        own :
            total worth tx.user_id (t.ledger w')
            ≡ worth tx.kind tx.amount +ℤ total worth tx.user_id (t.ledger w)
        own = rw d.logged (
            rw (total_of_own tx.user_id d.entry (t.ledger w) d.entry_user)
              (rw (d.entry_kind, d.entry_amount)))

        foreign :
            (tx.user_id == u) ≡ false → total worth u (t.ledger w') ≡ total worth u (t.ledger w)
        foreign isnt = rw d.logged (rw d.entry_user (rw isnt))

  pub Applied-IsAccounted :
      {tx : WalletTransaction} {w w' : W} {a : WalletSummary × WalletTransaction}
      → Applied t tx w a w'
      → IsAccounted w
      → IsAccounted w'
  Applied-IsAccounted d h = record {
    balances = total_after credit new_balance balance_of new_balance-credit d d.balance h.balances;
    points = total_after earned new_points points_of new_points-earned d d.points h.points;
  }

  Same-IsSolvent : {w w' : W} → Same t w w' → IsSolvent w → IsSolvent w'
  Same-IsSolvent same h = record {
    nonneg = λ u. rw same.wallets (h.nonneg u);
    fits = λ u. rw same.wallets (h.fits u);
  }

  Applied-IsSolvent :
      {tx : WalletTransaction} {w w' : W} {a : WalletSummary × WalletTransaction}
      → Applied t tx w a w'
      → Room tx.kind tx.amount (balance_of (t.wallet w tx.user_id))
      → IsSolvent w
      → IsSolvent w'
  Applied-IsSolvent {tx} {w} {w'} d room h = record { nonneg = λ u. (at u).0; fits = λ u. (at u).1 }
    where
      own :
          (pos 0 ≤ℤ balance_of (t.wallet w' tx.user_id))
          × InRange64 (balance_of (t.wallet w' tx.user_id))
      own = rw d.stored (
          rw d.balance (
            new_balance-solvent tx.kind tx.amount (balance_of (t.wallet w tx.user_id)) d.nonneg
              d.allowed room (h.nonneg tx.user_id) (h.fits tx.user_id)))

      at :
          (u : String)
          → (pos 0 ≤ℤ balance_of (t.wallet w' u)) × InRange64 (balance_of (t.wallet w' u))
      at u = elim (Bool-cases (tx.user_id == u)) [
        | inl is ↦
            subst
              (λ v. (pos 0 ≤ℤ balance_of (t.wallet w' v)) × InRange64 (balance_of (t.wallet w' v)))
              ((eq_iff tx.user_id u).0 is) own
        | inr isnt ↦ rw (d.others u isnt) (h.nonneg u, h.fits u)
      ]

module _ {W : Type 0} {t : WalletTables W} {s : WalletStore W} {Fault : Error → Type 0}
    (laws : IsWalletStore t s Fault) where
  -- Whether the call returns or fails, wallets that agree with the ledger still do.
  pub apply_transaction-IsAccounted :
      (tx : WalletTransaction) (w : W)
      → IsAccounted t w
      → Ensures
          (λ a w'. IsAccounted t w')
          (λ e w'. IsAccounted t w')
          (apply_transaction s (some tx) w)
  apply_transaction-IsAccounted tx w h =
      Ensures-mono (apply_transaction-Applied laws tx w) (λ a w' d. Applied-IsAccounted t d h)
        (λ e w' (_, same). Same-IsAccounted t same h)

  -- Whether the call returns or fails, no balance is negative, if a credit does not overflow.
  pub apply_transaction-IsSolvent :
      (tx : WalletTransaction) (w : W)
      → Room tx.kind tx.amount (balance_of (t.wallet w tx.user_id))
      → IsSolvent t w
      → Ensures (λ a w'. IsSolvent t w') (λ e w'. IsSolvent t w') (apply_transaction s (some tx) w)
  apply_transaction-IsSolvent tx w room h =
      Ensures-mono (apply_transaction-Applied laws tx w) (λ a w' d. Applied-IsSolvent t d room h)
        (λ e w' (_, same). Same-IsSolvent t same h)
