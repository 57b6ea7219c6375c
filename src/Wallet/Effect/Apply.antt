-- ===== src/Wallet/Effect/Apply.antt =====
-- `ApplyTransaction` of backend/internal/db/wallet_repository.go meets its specification.
use uitgo_monorepo.Base.{◌≡◌, refl, sym, false, some, ◌∷◌, ◌∙◌, ap, ◌⊎◌, inl, inr, arith}
use mathlib.Core.Path.{subst}
use uitgo_monorepo.Base.Int.{pos, ◌≤ℤ◌, ltb_ℤ}
use uitgo_monorepo.Base.Text.{is_empty}
use uitgo_monorepo.Errors.{Error}
use uitgo_monorepo.Base.Action.{err}
use uitgo_monorepo.Base.Action.Ensures.{
  Ensures, returned, Ensures-ok, Ensures-err, Ensures-mono, Ensures-bind, Ensures-raise_if,
}
use uitgo_monorepo.Wallet.{WalletSummary, WalletTransaction}
use uitgo_monorepo.Wallet.Store.{WalletModel, WalletStore, WalletTables, Same, IsWalletStore}
use uitgo_monorepo.Wallet.Repository.{
  apply_kind, found_or_created, write_rows, transaction_row, apply_body, apply_transaction,
}
use uitgo_monorepo.Wallet.Effect.{
  balance_of, new_balance, new_points, Allowed, Ready, Applied, Changed, Refusal, fault, no_user,
  negative, short, unknown_kind, Unfit, too_short, no_kind,
}
use uitgo_monorepo.Wallet.Effect.Rows.{
  put_wallet_self, put_wallet_ne, apply_kind-Changed, found_or_created-Ready,
}

module _ {W : Type 0} {t : WalletTables W} {s : WalletStore W} {Fault : Error → Type 0}
    (laws : IsWalletStore t s Fault) where
  write_rows-Applied :
      (tx : WalletTransaction) (w : W) (m m' : WalletModel) (v : W)
      → Ready t tx.user_id w m v
      → Changed t tx.kind tx.amount m m'
      → pos 0 ≤ℤ tx.amount
      → Ensures (λ a w'. Applied t tx w a w') (λ e w'. Fault e) (write_rows s tx m' v)
  unfolding write_rows
  write_rows-Applied tx w m m' v ready changed nonneg =
      let v1 = (s.now v).1 in
      let row = record m' { updated_at = (s.now v).0 } in
      Ensures-bind (s.save_wallet row) _ v1 (laws.save_law row v1)
        (λ saved v2 kept.
          let v3 = (s.new_id v2).1 in
          let entry = transaction_row s tx (s.new_id v2).0 in
          Ensures-bind (s.create_transaction entry) _ v3 (laws.create_transaction_law entry v3)
            (λ entry' v4 added.
              let written = added.wallets ∙ (laws.new_id_law v2).wallets ∙ kept.wrote.wallets in
              let user = kept.user ∙ changed.user ∙ ready.user in
              returned (record {
                nonneg = nonneg;
                row = saved;
                entry = entry';
                stored =
                    ap (λ f. f tx.user_id) written
                    ∙ put_wallet_self (t.wallet v1) saved tx.user_id user;
                balance =
                    kept.balance
                    ∙ changed.balance
                    ∙ ap (new_balance tx.kind tx.amount) ready.balance;
                points =
                    kept.points ∙ changed.points ∙ ap (new_points tx.kind tx.amount) ready.points;
                allowed = subst (Allowed tx.kind tx.amount) ready.balance changed.allowed;
                others = λ x ne.
                    ap (λ f. f x) written
                    ∙ put_wallet_ne (t.wallet v1) saved tx.user_id x user ne
                    ∙ ap (λ f. f x) (laws.now_law v).wallets
                    ∙ ready.only.others x ne;
                logged =
                    added.ledgers
                    ∙ ap (λ l. entry' ∷ l)
                        ((laws.new_id_law v2).ledgers
                          ∙ kept.wrote.ledgers
                          ∙ (laws.now_law v).ledgers
                          ∙ ready.only.ledgers);
                entry_user = added.user;
                entry_amount = added.amount;
                entry_kind = added.kind;
                reported = refl;
              }))
            (λ e v4 (f, _). f))
        (λ e v2 (f, _). f)

  refused :
      (tx : WalletTransaction) (w : W) (m : WalletModel) (e : Error)
      → m.balance ≡ balance_of (t.wallet w tx.user_id)
      → Unfit tx.kind tx.amount m.balance e
      → Refusal t Fault tx w e
  refused tx w m e b (too_short k less) =
      short k (λ enough. less (subst (λ x. tx.amount ≤ℤ x) (sym b) enough))
  refused tx w m e b (no_kind s k) = unknown_kind s k

  apply_body-Applied :
      (tx : WalletTransaction) (w : W)
      → pos 0 ≤ℤ tx.amount
      → Ensures (λ a w'. Applied t tx w a w') (λ e w'. Refusal t Fault tx w e) (apply_body s tx w)
  unfolding apply_body
  apply_body-Applied tx w nonneg =
      Ensures-bind (s.lock_wallet tx.user_id) _ w (laws.lock_law tx.user_id w)
        (λ o w1 (found, same).
          Ensures-bind (found_or_created s tx.user_id o) _ w1
            (found_or_created-Ready laws tx.user_id o w w1 found same)
            (λ m w2 ready.
              Ensures-bind (apply_kind tx.kind tx.amount m) _ w2
                (apply_kind-Changed t tx.kind tx.amount m w2)
                (λ m' w3 (changed, still).
                  Ensures-mono
                    (write_rows-Applied tx w m m' w3
                      (subst (Ready t tx.user_id w m) (sym still) ready) changed nonneg)
                    (λ a w4 h. h) (λ e w4 f. fault f))
                (λ e w3 unfit. refused tx w m e ready.balance unfit))
            (λ e w2 (f, _). fault f))
        (λ e w1 (f, _). fault f)

  -- A call of `ApplyTransaction` applies its transaction whole, or leaves every row as it was.
  pub apply_transaction-Applied :
      (tx : WalletTransaction) (w : W)
      → Ensures
          (λ a w'. Applied t tx w a w')
          (λ e w'. Refusal t Fault tx w e × Same t w w')
          (apply_transaction s (some tx) w)
  unfolding apply_transaction
  apply_transaction-Applied tx w =
      Ensures-raise_if (is_empty tx.user_id) _ _ w (λ bad. (no_user bad, unchanged))
        λ _.
          Ensures-raise_if (ltb_ℤ tx.amount (pos 0)) _ _ w (λ bad. (negative bad, unchanged))
            λ good.
              Ensures-mono (laws.transaction_law (apply_body s tx) w)
                (λ a w' (v, ran, same).
                  committed a v w' same (Ensures-ok (apply_body-Applied tx w (nonneg good)) ran))
                (λ e w' (why, same). (failed e (nonneg good) why, same))
    where
      unchanged : Same t w w
      unchanged = record { wallets = refl; ledgers = refl }

      nonneg : ltb_ℤ tx.amount (pos 0) ≡ false → pos 0 ≤ℤ tx.amount
      nonneg good = ground arith

      failed :
          (e : Error)
          → pos 0 ≤ℤ tx.amount
          → Fault e ⊎ ((v : W) × (apply_body s tx w ≡ (err e, v)))
          → Refusal t Fault tx w e
      failed e n (inl f) = fault f
      failed e n (inr (v, ran)) = Ensures-err (apply_body-Applied tx w n) ran

      committed :
          (a : WalletSummary × WalletTransaction) (v w' : W)
          → Same t v w'
          → Applied t tx w a v
          → Applied t tx w a w'
      committed a v w' same h = record {
        nonneg = h.nonneg;
        row = h.row;
        entry = h.entry;
        stored = ap (λ f. f tx.user_id) same.wallets ∙ h.stored;
        balance = h.balance;
        points = h.points;
        allowed = h.allowed;
        others = λ x ne. ap (λ f. f x) same.wallets ∙ h.others x ne;
        logged = same.ledgers ∙ h.logged;
        entry_user = h.entry_user;
        entry_amount = h.entry_amount;
        entry_kind = h.entry_kind;
        reported = h.reported;
      }

-- A transaction that the repository applies: of a user, with an amount that is not negative, and which
-- the balance and the type allow.
pub record IsFit {W : Type 0} (t : WalletTables W) (tx : WalletTransaction) (w : W) : Type 0 where
  pub user : is_empty tx.user_id ≡ false
  pub nonneg : pos 0 ≤ℤ tx.amount
  pub allowed : Allowed tx.kind tx.amount (balance_of (t.wallet w tx.user_id))
