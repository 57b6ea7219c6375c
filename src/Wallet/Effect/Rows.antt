-- ===== src/Wallet/Effect/Rows.antt =====
-- The steps of `Get` and `ApplyTransaction` of backend/internal/db/wallet_repository.go, one lemma each.
use uitgo_monorepo.Base.{
  ℕ, String, ◌≡◌, refl, sym, false, Option, none, some, ◌==◌, ◌∙◌, ap, inl, inr, Bool-cases, arith,
  eq_iff,
}
use uitgo_monorepo.Base.Int.{ℤ, ltb_ℤ}
use uitgo_monorepo.Base.Text.{is_empty}
use uitgo_monorepo.Errors.{Error}
use uitgo_monorepo.Base.Action.Ensures.{Ensures, returned, raised, Ensures-bind, Ensures-raise_if}
use uitgo_monorepo.Wallet.{TransactionType, top_up, reward, deduction, other}
use uitgo_monorepo.Wallet.Store.{
  WalletModel, WalletStore, WalletTables, Same, IsWalletStore, put_wallet,
}
use uitgo_monorepo.Wallet.Repository.{empty_wallet, apply_kind, found_or_created}
use uitgo_monorepo.Wallet.Repository.{get}
use uitgo_monorepo.Wallet.Effect.{
  balance_of, points_of, Same-OnlyWallet, Wrote-OnlyWallet, OnlyWallet-trans, Reads, Same-Reads,
  Ready, Changed, Unfit, too_short, no_kind,
}

pub apply_kind-Changed :
    {W : Type 0} (t : WalletTables W) (k : TransactionType) (x : ℤ) (m : WalletModel) (w : W)
    → Ensures
        (λ m' w'. Changed t k x m m' × (w' ≡ w))
        (λ e w'. Unfit k x m.balance e)
        (apply_kind k x m w)
unfolding apply_kind
apply_kind-Changed t top_up x m w =
    returned (record { user = refl; balance = refl; points = refl; allowed = tt }, refl)
apply_kind-Changed t reward x m w =
    returned (record { user = refl; balance = refl; points = refl; allowed = tt }, refl)
apply_kind-Changed t deduction x m w =
    Ensures-raise_if (ltb_ℤ m.balance x) _ _ w (λ less. too_short refl (ground arith))
      λ covered.
        returned
          (record { user = refl; balance = refl; points = refl; allowed = ground arith }, refl)
apply_kind-Changed t (other s) x m w = raised (no_kind s refl)

pub put_wallet_self :
    (f : String → Option WalletModel) (m : WalletModel) (u : String)
    → m.user_id ≡ u
    → put_wallet f m u ≡ some m
put_wallet_self f m u e = ground (arith, eq_iff m.user_id u)

pub put_wallet_ne :
    (f : String → Option WalletModel) (m : WalletModel) (u v : String)
    → m.user_id ≡ u
    → (u == v) ≡ false
    → put_wallet f m v ≡ f v
put_wallet_ne f m u v e ne = rw e (rw ne)

module _ {W : Type 0} {t : WalletTables W} {s : WalletStore W} {Fault : Error → Type 0}
    (laws : IsWalletStore t s Fault) where
  -- A row of zero for a user that had none changes no balance.
  new_row-Reads :
      (u : String) (now : ℕ) (w w' : W)
      → t.wallet w u ≡ none
      → t.wallet w' ≡ put_wallet (t.wallet w) (empty_wallet u now)
      → t.ledger w' ≡ t.ledger w
      → Reads t w w'
  new_row-Reads u now w w' free wrote same = record {
    balances = λ v. rw wrote (elim (Bool-cases (u == v)) [
      | inl is ↦ rw is (rw (← (eq_iff u v).0 is) (rw free))
      | inr isnt ↦ rw isnt
    ]);
    points = λ v. rw wrote (elim (Bool-cases (u == v)) [
      | inl is ↦ rw is (rw (← (eq_iff u v).0 is) (rw free))
      | inr isnt ↦ rw isnt
    ]);
    ledgers = same;
  }

  pub found_or_created-Ready :
      (u : String) (o : Option WalletModel) (w w1 : W)
      → o ≡ t.wallet w u
      → Same t w w1
      → Ensures
          (λ m w2. Ready t u w m w2)
          (λ e w2. Fault e × Reads t w w2)
          (found_or_created s u o w1)
  unfolding found_or_created
  found_or_created-Ready u (some m) w w1 e same = returned (record {
    user = laws.key_law w u m (cc);
    balance = rw (← e);
    points = rw (← e);
    only = Same-OnlyWallet t u same;
    kept = Same-Reads t same;
  })
  found_or_created-Ready u none w w1 e same =
      let made = empty_wallet u (s.now w1).0 in
      Ensures-bind (s.create_wallet made) _ (s.now w1).1
        (laws.create_law made (s.now w1).1
          (ap (λ f. f u) ((laws.now_law w1).wallets ∙ same.wallets) ∙ sym e))
        (λ _ w2 wrote. returned (record {
          user = refl;
          balance = rw (← e);
          points = rw (← e);
          only = OnlyWallet-trans t (Same-OnlyWallet t u same) (
              OnlyWallet-trans t (Same-OnlyWallet t u (laws.now_law w1))
                (Wrote-OnlyWallet t made wrote));
          kept =
              new_row-Reads u (s.now w1).0 w w2 (sym e)
                (wrote.wallets
                  ∙ ap (λ f. put_wallet f made) ((laws.now_law w1).wallets ∙ same.wallets))
                (wrote.ledgers ∙ (laws.now_law w1).ledgers ∙ same.ledgers);
        }))
        (λ e w2 (f, still). (
          f,
          Same-Reads t (record {
            wallets = still.wallets ∙ (laws.now_law w1).wallets ∙ same.wallets;
            ledgers = still.ledgers ∙ (laws.now_law w1).ledgers ∙ same.ledgers;
          }),
        ))

  -- `Get` reports the balance and the points of the user, which are zero for a user with no row,
  -- and changes no balance; only the database makes it fail for a user id that is not empty.
  pub get-Reads :
      (u : String) (w : W)
      → is_empty u ≡ false
      → Ensures
          (λ found w'.
            (found.balance ≡ balance_of (t.wallet w u))
            × (found.reward_points ≡ points_of (t.wallet w u))
            × Reads t w w')
          (λ e w'. Fault e × Reads t w w')
          (get s u w)
  unfolding get
  get-Reads u w user = rw user (
      Ensures-bind (s.find_wallet u) _ w (laws.find_law u w)
        (λ o w1 (found, same).
          Ensures-bind (found_or_created s u o) _ w1 (found_or_created-Ready u o w w1 found same)
            (λ m w2 ready. returned (ready.balance, ready.points, ready.kept))
            (λ e w2 failed. failed))
        (λ e w1 (f, same). (f, Same-Reads t same)))
