-- ===== src/Wallet/Store.antt =====
-- The two wallet tables as backend/internal/db/wallet_repository.go sees them through GORM, the
-- clock and the source of ids: parameters of the model, with what the code relies on as laws.
use uitgo_monorepo.Base.{none, ℕ, String, ◌≡◌, Option, some, List, ◌∷◌, ◌⊎◌, ◌==◌, if◌then◌else◌}
use uitgo_monorepo.Base.Int.{ℤ}
use uitgo_monorepo.Errors.{Error}
use uitgo_monorepo.Base.Action.{Action, ok, err}
use uitgo_monorepo.Base.Action.Ensures.{Ensures}
use uitgo_monorepo.Wallet.{WalletSummary, WalletTransaction, TransactionType}

-- `walletModel`, a row of `wallets`
pub record WalletModel : Type 0 where
  pub user_id : String
  pub balance : ℤ
  pub reward_points : ℤ
  pub updated_at : ℕ

-- `walletTransactionModel`, a row of `wallet_transactions`
pub record WalletTransactionModel : Type 0 where
  pub id : String
  pub user_id : String
  pub amount : ℤ
  pub kind : TransactionType
  pub created_at : ℕ

-- The statements that the repository runs; `none` of a `First` is `gorm.ErrRecordNotFound`.
pub record WalletStore (W : Type 0) : Type 0 where
  pub find_wallet : String → Action W (Option WalletModel)
  pub lock_wallet : String → Action W (Option WalletModel)
  pub create_wallet : WalletModel → Action W (Unit {0})
  pub save_wallet : WalletModel → Action W WalletModel
  pub create_transaction : WalletTransactionModel → Action W WalletTransactionModel
  pub count_transactions : String → Action W ℤ
  pub find_transactions : String → ℤ → ℤ → Action W (List WalletTransactionModel)
  pub transaction :
      Action W (WalletSummary × WalletTransaction) → Action W (WalletSummary × WalletTransaction)
  pub now : W → ℕ × W
  pub new_id : W → String × W

-- What the tables hold in a state: the wallet of each user, and the transactions, newest first.
pub record WalletTables (W : Type 0) : Type 0 where
  pub wallet : W → String → Option WalletModel
  pub ledger : W → List WalletTransactionModel

abbrev pub put_wallet : (String → Option WalletModel) → WalletModel → String → Option WalletModel
put_wallet f m u = if m.user_id == u then some m else f u

module _ {W : Type 0} (t : WalletTables W) where
  -- Two states between which no row differs.
  pub record Same (w w' : W) : Type 0 where
    pub wallets : t.wallet w' ≡ t.wallet w
    pub ledgers : t.ledger w' ≡ t.ledger w

  -- A wallet row was written and nothing else.
  pub record Wrote (m : WalletModel) (w w' : W) : Type 0 where
    pub wallets : t.wallet w' ≡ put_wallet (t.wallet w) m
    pub ledgers : t.ledger w' ≡ t.ledger w

  -- The row `m` was written, with a time that the database may have set itself.
  pub record Saved (m m' : WalletModel) (w w' : W) : Type 0 where
    pub wrote : Wrote m' w w'
    pub user : m'.user_id ≡ m.user_id
    pub balance : m'.balance ≡ m.balance
    pub points : m'.reward_points ≡ m.reward_points

  -- A transaction row was added: the row `r`, with a time if `r` had none.
  pub record Added (r r' : WalletTransactionModel) (w w' : W) : Type 0 where
    pub wallets : t.wallet w' ≡ t.wallet w
    pub ledgers : t.ledger w' ≡ r' ∷ t.ledger w
    pub user : r'.user_id ≡ r.user_id
    pub amount : r'.amount ≡ r.amount
    pub kind : r'.kind ≡ r.kind

  -- Documented behaviour of the database: a row is found under its own key, a query changes no row, a
  -- failed statement changes nothing, and a transaction commits what its body did if that returned
  -- and is rolled back otherwise. `Fault` tells the errors that a statement may fail with: ⊥ is a
  -- database that does not fail.
  pub record IsWalletStore (s : WalletStore W) (Fault : Error → Type 0) : Type 0 where
    pub key_law : (w : W) (u : String) (m : WalletModel) → t.wallet w u ≡ some m → m.user_id ≡ u
    pub find_law :
        (u : String) (w : W)
        → Ensures
            (λ o w'. (o ≡ t.wallet w u) × Same w w')
            (λ e w'. Fault e × Same w w')
            (s.find_wallet u w)
    pub lock_law :
        (u : String) (w : W)
        → Ensures
            (λ o w'. (o ≡ t.wallet w u) × Same w w')
            (λ e w'. Fault e × Same w w')
            (s.lock_wallet u w)
    pub create_law :
        (m : WalletModel) (w : W)
        → t.wallet w m.user_id ≡ none
        → Ensures (λ _ w'. Wrote m w w') (λ e w'. Fault e × Same w w') (s.create_wallet m w)
    pub save_law :
        (m : WalletModel) (w : W)
        → Ensures (λ m' w'. Saved m m' w w') (λ e w'. Fault e × Same w w') (s.save_wallet m w)
    pub create_transaction_law :
        (r : WalletTransactionModel) (w : W)
        → Ensures
            (λ r' w'. Added r r' w w')
            (λ e w'. Fault e × Same w w')
            (s.create_transaction r w)
    pub transaction_law :
        (body : Action W (WalletSummary × WalletTransaction)) (w : W)
        → Ensures
            (λ a w'. (v : W) × (body w ≡ (ok a, v)) × Same v w')
            (λ e w'. (Fault e ⊎ ((v : W) × (body w ≡ (err e, v)))) × Same w w')
            (s.transaction body w)
    pub now_law : (w : W) → Same w (s.now w).1
    pub new_id_law : (w : W) → Same w (s.new_id w).1
