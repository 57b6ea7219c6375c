-- ===== src/Wallet/Memory.antt =====
-- A database in memory that meets the laws of Wallet/Store: it shows that they can hold.
use uitgo_monorepo.Base.{
  ℕ, String, ◌+◌, ◌≡◌, refl, Option, none, some, List, [], ◌∷◌, ◌==◌, eq_iff, arith, if◌then◌else◌,
  ◌⊎◌, inr,
}
use uitgo_monorepo.Base.Int.{pos}
use uitgo_monorepo.Base.Action.{Result, ok, err}
use uitgo_monorepo.Base.Action.Ensures.{Ensures, returned, raised}
use uitgo_monorepo.Wallet.{WalletSummary, WalletTransaction}
use uitgo_monorepo.Wallet.Store.{
  WalletModel, WalletTransactionModel, WalletStore, WalletTables, Same, IsWalletStore,
}

pub record Memory : Type 0 where
  pub wallets : List WalletModel
  pub entries : List WalletTransactionModel
  pub clock : ℕ

unfoldable pub row_of : List WalletModel → String → Option WalletModel
row_of [] u = none
row_of (m ∷ rows) u = if m.user_id == u then some m else row_of rows u

abbrev keyed : WalletTransactionModel → ℕ → WalletTransactionModel
keyed r now = record r { created_at = now }

-- A body that failed leaves the tables as they were.
settle :
    Memory
    → Result (WalletSummary × WalletTransaction) × Memory
    → Result (WalletSummary × WalletTransaction) × Memory
settle before (ok a, after) = (ok a, after)
settle before (err e, after) = (err e, before)

unfoldable pub store : WalletStore Memory
unfolding row_of settle
store = record {
  find_wallet = λ u w. (ok (row_of w.wallets u), w);
  lock_wallet = λ u w. (ok (row_of w.wallets u), w);
  create_wallet = λ m w. (ok tt, record w { wallets = m ∷ w.wallets });
  save_wallet = λ m w. (ok m, record w { wallets = m ∷ w.wallets });
  create_transaction =
      λ r w. (ok (keyed r w.clock), record w { entries = keyed r w.clock ∷ w.entries });
  count_transactions = λ u w. (ok (pos 0), w);
  find_transactions = λ u limit offset w. (ok w.entries, w);
  transaction = λ body w. settle w (body w);
  now = λ w. (w.clock + 1, record w { clock = w.clock + 1 });
  new_id = λ w. ("6ba7b810-9dad-11d1-80b4-00c04fd430c8", w);
}

abbrev pub tables : WalletTables Memory
tables = record { wallet = λ w. row_of w.wallets; ledger = λ w. w.entries }

row_of-key :
    (rows : List WalletModel) (u : String) (m : WalletModel)
    → row_of rows u ≡ some m
    → m.user_id ≡ u
unfolding row_of
row_of-key [] u m e = cc
row_of-key (r ∷ rows) u m e = ground (arith, eq_iff r.user_id u, row_of-key rows u m)

settled :
    (w : Memory) (x : Result (WalletSummary × WalletTransaction) × Memory)
    → Ensures
        (λ a w'. (v : Memory) × (x ≡ (ok a, v)) × Same tables v w')
        (λ e w'. (⊥ ⊎ ((v : Memory) × (x ≡ (err e, v)))) × Same tables w w')
        (settle w x)
unfolding settle
settled w (ok a, v) = returned (v, refl, record { wallets = refl; ledgers = refl })
settled w (err e, v) = raised (inr (v, refl), record { wallets = refl; ledgers = refl })

pub store-IsWalletStore : IsWalletStore tables store (λ _. ⊥)
unfolding store
store-IsWalletStore = record {
  key_law = λ w u m e. row_of-key w.wallets u m e;
  find_law = λ u w. returned (refl, record { wallets = refl; ledgers = refl });
  lock_law = λ u w. returned (refl, record { wallets = refl; ledgers = refl });
  create_law = λ m w missing. returned (record { wallets = refl; ledgers = refl });
  save_law = λ m w. returned (record {
    wrote = record { wallets = refl; ledgers = refl };
    user = refl;
    balance = refl;
    points = refl;
  });
  create_transaction_law = λ r w.
      returned (record { wallets = refl; ledgers = refl; user = refl; amount = refl; kind = refl });
  transaction_law = λ body w. settled w (body w);
  now_law = λ w. record { wallets = refl; ledgers = refl };
  new_id_law = λ w. record { wallets = refl; ledgers = refl };
}
