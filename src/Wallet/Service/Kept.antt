-- ===== src/Wallet/Service/Kept.antt =====
-- What every call of `WalletService` (backend/internal/domain/wallet_service.go) keeps of the wallet
-- tables.
use uitgo_monorepo.Base.{ℕ, String, ◌+◌, ◌<◌, ◌^◌, arith, eq_iff, ◌==◌, inl, inr, Bool-cases}
use mathlib.Core.Path.{subst}
use uitgo_monorepo.Base.Int.{
  ℤ, pos, ◌≤ℤ◌, ◌+ℤ◌, ◌-ℤ◌, int64-id, +ℤ-fits, -ℤ-fits, int_laws, pos_part,
}
use uitgo_monorepo.Wallet.{
  TransactionType, top_up, reward, deduction, other, WalletSummary, WalletTransaction,
}
use uitgo_monorepo.Wallet.Store.{WalletTables, Same}
use uitgo_monorepo.Wallet.Config.{WalletServiceConfig}
use uitgo_monorepo.Wallet.Effect.{balance_of, Reads, Same-Reads, Applied, Allowed, new_balance}
use uitgo_monorepo.Wallet.Balance.{IsAccounted}
use uitgo_monorepo.Wallet.Service.Gate.{InBounds}

-- Every balance lies between zero and `bound`.
pub record IsWithin {W : Type 0} (t : WalletTables W) (bound : ℕ) (w : W) : Type 0 where
  pub low : (u : String) → pos 0 ≤ℤ balance_of (t.wallet w u)
  pub high : (u : String) → balance_of (t.wallet w u) ≤ℤ pos bound

pub record IsKept {W : Type 0} (t : WalletTables W) (bound : ℕ) (w : W) : Type 0 where
  pub accounted : IsAccounted t w
  pub within : IsWithin t bound w

pub IsKept-mono :
    {W : Type 0} {t : WalletTables W} {w : W} (b k : ℕ) → IsKept t b w → IsKept t (b + k) w
IsKept-mono b k h = record {
  accounted = h.accounted;
  within = record { low = h.within.low; high = λ u. let below = h.within.high u in omega arith };
}

-- A state in which every user has what they had.
pub Reads-IsKept :
    {W : Type 0} {t : WalletTables W} {w w' : W} {b : ℕ}
    → Reads t w w'
    → IsKept t b w
    → IsKept t b w'
Reads-IsKept reads h = record {
  accounted = record {
    balances = λ u. rw (reads.balances u, reads.ledgers) (h.accounted.balances u);
    points = λ u. rw (reads.points u, reads.ledgers) (h.accounted.points u);
  };
  within = record {
    low = λ u. rw (reads.balances u) (h.within.low u);
    high = λ u. rw (reads.balances u) (h.within.high u);
  };
}

pub Same-IsKept :
    {W : Type 0} {t : WalletTables W} {w w' : W} {b : ℕ}
    → Same t w w'
    → IsKept t b w
    → IsKept t b w'
Same-IsKept {t = t} same h = Reads-IsKept (Same-Reads t same) h

-- A single balance after a transaction that the service accepts.
new_balance-within :
    (cfg : WalletServiceConfig) (k : TransactionType) (x b : ℤ) (bound : ℕ)
    → pos 0 ≤ℤ x
    → Allowed k x b
    → InBounds cfg k x
    → pos 0 ≤ℤ b
    → b ≤ℤ pos bound
    → bound + pos_part cfg.max_top_up_amount < 2 ^ 63
    → (pos 0 ≤ℤ new_balance k x b)
      × (new_balance k x b ≤ℤ pos (bound + pos_part cfg.max_top_up_amount))
new_balance-within cfg top_up x b bound n al fits low high room =
    rw (int64-id (b +ℤ x) (+ℤ-fits b x low n (ground arith)).1) (omega int_laws, omega int_laws)
new_balance-within cfg deduction x b bound n al fits low high room =
    rw (int64-id (b -ℤ x) (-ℤ-fits b x n al (ground arith)).1) (omega int_laws, omega int_laws)
new_balance-within cfg reward x b bound n al fits low high room = (low, omega arith)
new_balance-within cfg (other s) x b bound n al fits low high room = (low, omega arith)

module _ {W : Type 0} {t : WalletTables W} (cfg : WalletServiceConfig) where
  pub Applied-IsWithin :
      {tx : WalletTransaction} {w w' : W} {a : WalletSummary × WalletTransaction} (bound : ℕ)
      → Applied t tx w a w'
      → InBounds cfg tx.kind tx.amount
      → bound + pos_part cfg.max_top_up_amount < 2 ^ 63
      → IsWithin t bound w
      → IsWithin t (bound + pos_part cfg.max_top_up_amount) w'
  Applied-IsWithin {tx} {w} {w'} bound d fits room h = record {
    low = λ u. (at u).0;
    high = λ u. (at u).1;
  }
    where
      own :
          (pos 0 ≤ℤ balance_of (t.wallet w' tx.user_id))
          × (balance_of (t.wallet w' tx.user_id) ≤ℤ pos (bound + pos_part cfg.max_top_up_amount))
      own = rw d.stored (
          rw d.balance (
            new_balance-within cfg tx.kind tx.amount (balance_of (t.wallet w tx.user_id)) bound
              d.nonneg d.allowed fits (h.low tx.user_id) (h.high tx.user_id) room))

      at :
          (u : String)
          → (pos 0 ≤ℤ balance_of (t.wallet w' u))
            × (balance_of (t.wallet w' u) ≤ℤ pos (bound + pos_part cfg.max_top_up_amount))
      at u = elim (Bool-cases (tx.user_id == u)) [
        | inl is ↦
            subst
              (λ v.
                (pos 0 ≤ℤ balance_of (t.wallet w' v))
                × (balance_of (t.wallet w' v) ≤ℤ pos (bound + pos_part cfg.max_top_up_amount)))
              ((eq_iff tx.user_id u).0 is) own
        | inr isnt ↦ let below = h.high u in rw (d.others u isnt) (h.low u, omega arith)
      ]
