-- ===== src/Wallet/Service/History.antt =====
-- Any sequence of calls of `WalletService` (backend/internal/domain/wallet_service.go) on the
-- repository of backend/internal/db/wallet_repository.go, failed calls included.
use uitgo_monorepo.Base.{
  ℕ, String, ◌≡◌, refl, sym, ◌+◌, ◌*◌, ◌<◌, ◌^◌, Bool, false, none, some, List, [], ◌∷◌, arith,
  ◌||◌, inl, inr, Bool-cases, length,
}
use mathlib.Core.Path.{subst}
use uitgo_monorepo.Base.Int.{ℤ, pos, leb_ℤ, ltb_ℤ, int64-id, pos_part}
use uitgo_monorepo.Base.Text.{is_empty}
use uitgo_monorepo.Errors.{Error}
use uitgo_monorepo.Base.Action.{Result, ok, err, pure, resume}
use uitgo_monorepo.Base.Action.Ensures.{Ensures-mono, Ensures-state}
use uitgo_monorepo.Wallet.{
  TransactionType, top_up, reward, deduction, WalletSummary, WalletTransaction, WalletRepository,
}
use uitgo_monorepo.Wallet.Store.{WalletStore, WalletTables, IsWalletStore}
use uitgo_monorepo.Wallet.Repository.{wallet_repository}
use uitgo_monorepo.Wallet.Config.{WalletServiceConfig, fare_for_service}
use uitgo_monorepo.Wallet.Effect.Rows.{get-Reads}
use uitgo_monorepo.Wallet.Effect.Apply.{apply_transaction-Applied}
use uitgo_monorepo.Wallet.Balance.{Applied-IsAccounted}
use uitgo_monorepo.Wallet.Service.{
  apply_transaction, top_up_wallet, ensure_balance_for_trip, deduct_trip_fare,
  reward_trip_completion, summary, request, covers, charged,
}
use uitgo_monorepo.Wallet.Service.Gate.{apply_transaction_gate}
use uitgo_monorepo.Wallet.Service.Kept.{
  IsKept, IsKept-mono, Reads-IsKept, Same-IsKept, Applied-IsWithin,
}

-- The calls that reach the wallet tables.
pub data WalletCall : Type 0 where
  view : String → WalletCall
  credit_call : String → ℤ → WalletCall
  check : String → String → WalletCall
  deduct : String → String → WalletCall
  grant : String → WalletCall
  apply : WalletTransaction → WalletCall

module _ {W : Type 0} (s : WalletStore W) (cfg : WalletServiceConfig) where
  -- The state after a call, whatever it returned.
  pub call : WalletCall → W → W
  call (view u) w = (summary (wallet_repository s) cfg u w).1
  call (credit_call u amount) w = (top_up_wallet (wallet_repository s) cfg u amount w).1
  call (check u service) w = (ensure_balance_for_trip (wallet_repository s) cfg u service w).1
  call (deduct u service) w = (deduct_trip_fare (wallet_repository s) cfg u service w).1
  call (grant u) w = (reward_trip_completion (wallet_repository s) cfg u w).1
  call (apply tx) w = (apply_transaction (wallet_repository s) cfg (some tx) w).1

  pub calls : List WalletCall → W → W
  unfolding call
  calls [] w = w
  calls (c ∷ cs) w = calls cs (call c w)

-- What stands after a call changes no state.
resume_first-state :
    {W A B : Type 0} (x : Result (A × B) × W) → (resume x (λ (p : A × B). pure p.0)).1 ≡ x.1
resume_first-state (ok a, w) = refl
resume_first-state (err e, w) = refl

covers-state :
    {W : Type 0} (repo : WalletRepository W) (cfg : WalletServiceConfig) (fare : ℤ)
    (x : Result WalletSummary × W)
    → (covers repo cfg fare x).1 ≡ x.1
unfolding covers
covers-state repo cfg fare (err e, w) = refl
covers-state repo cfg fare (ok found, w) = ground arith

charged-state :
    {W : Type 0} (repo : WalletRepository W) (cfg : WalletServiceConfig) (amount : ℤ)
    (x : Result (WalletSummary × WalletTransaction) × W)
    → (charged repo cfg amount x).1 ≡ x.1
unfolding charged
charged-state repo cfg amount (err e, w) = refl
charged-state repo cfg amount (ok p, w) = refl

abbrev outside : WalletServiceConfig → ℤ → Bool
outside cfg amount = ltb_ℤ amount cfg.min_top_up_amount || ltb_ℤ cfg.max_top_up_amount amount

module _ {W : Type 0} {t : WalletTables W} {s : WalletStore W} {Fault : Error → Type 0}
    (laws : IsWalletStore t s Fault) (cfg : WalletServiceConfig) where
  -- The service's own gate, then the repository.
  apply_transaction-IsKept :
      (tx : WalletTransaction) (bound : ℕ) (w : W)
      → bound + pos_part cfg.max_top_up_amount < 2 ^ 63
      → IsKept t bound w
      → IsKept t
          (bound + pos_part cfg.max_top_up_amount)
          (apply_transaction (wallet_repository s) cfg (some tx) w).1
  unfolding wallet_repository
  apply_transaction-IsKept tx bound w room h =
      elim (apply_transaction_gate (wallet_repository s) cfg tx w) [
        | inl (accepted, through) ↦ rw through (
            Ensures-state {R = IsKept t (bound + pos_part cfg.max_top_up_amount)} (
              Ensures-mono (apply_transaction-Applied laws tx w)
                (λ a w' d. record {
                  accounted = Applied-IsAccounted t d h.accounted;
                  within = Applied-IsWithin cfg bound d accepted.bounded room h.within;
                })
                (λ e w' (_, same). IsKept-mono bound _ (Same-IsKept same h))))
        | inr (_, (e, refused)) ↦ rw refused (IsKept-mono bound _ h)
      ]

  get-IsKept :
      (u : String) (bound : ℕ) (w : W)
      → is_empty u ≡ false
      → IsKept t bound w
      → IsKept t (bound + pos_part cfg.max_top_up_amount) ((wallet_repository s).get u w).1
  unfolding wallet_repository
  get-IsKept u bound w user h = IsKept-mono bound _ (
      Ensures-state {R = IsKept t bound} (
        Ensures-mono (get-Reads laws u w user) (λ a w' (_, _, reads). Reads-IsKept reads h)
          (λ e w' (_, reads). Reads-IsKept reads h)))

  charged-IsKept :
      (u : String) (amount : ℤ) (k : TransactionType) (bound : ℕ) (w : W)
      → bound + pos_part cfg.max_top_up_amount < 2 ^ 63
      → IsKept t bound w
      → IsKept t
          (bound + pos_part cfg.max_top_up_amount)
          (charged
            (wallet_repository s)
            cfg
            amount
            (apply_transaction (wallet_repository s) cfg (some (request u amount k)) w)).1
  charged-IsKept u amount k bound w room h =
      subst (IsKept t (bound + pos_part cfg.max_top_up_amount))
        (sym (
          charged-state (wallet_repository s) cfg amount
            (apply_transaction (wallet_repository s) cfg (some (request u amount k)) w)))
        (apply_transaction-IsKept (request u amount k) bound w room h)

  summary-IsKept :
      (u : String) (bound : ℕ) (w : W)
      → bound + pos_part cfg.max_top_up_amount < 2 ^ 63
      → IsKept t bound w
      → IsKept t (bound + pos_part cfg.max_top_up_amount) (summary (wallet_repository s) cfg u w).1
  unfolding summary
  summary-IsKept u bound w room h = elim (Bool-cases (is_empty u)) [
    | inl anon ↦ rw anon (IsKept-mono bound _ h)
    | inr user ↦ rw user (get-IsKept u bound w user h)
  ]

  top_up_wallet-IsKept :
      (u : String) (amount : ℤ) (bound : ℕ) (w : W)
      → bound + pos_part cfg.max_top_up_amount < 2 ^ 63
      → IsKept t bound w
      → IsKept t
          (bound + pos_part cfg.max_top_up_amount)
          (top_up_wallet (wallet_repository s) cfg u amount w).1
  unfolding top_up_wallet
  top_up_wallet-IsKept u amount bound w room h = elim (Bool-cases (is_empty u)) [
    | inl anon ↦ rw anon (IsKept-mono bound _ h)
    | inr user ↦ rw user (elim (Bool-cases (outside cfg amount)) [
      | inl bad ↦ rw bad (IsKept-mono bound _ h)
      | inr good ↦ rw good (
          subst (IsKept t (bound + pos_part cfg.max_top_up_amount))
            (sym (
              resume_first-state
                (apply_transaction (wallet_repository s) cfg (some (request u amount top_up)) w)))
            (apply_transaction-IsKept (request u amount top_up) bound w room h))
    ])
  ]

  ensure_balance_for_trip-IsKept :
      (u service : String) (bound : ℕ) (w : W)
      → bound + pos_part cfg.max_top_up_amount < 2 ^ 63
      → IsKept t bound w
      → IsKept t
          (bound + pos_part cfg.max_top_up_amount)
          (ensure_balance_for_trip (wallet_repository s) cfg u service w).1
  unfolding ensure_balance_for_trip
  ensure_balance_for_trip-IsKept u service bound w room h = elim (Bool-cases (is_empty u)) [
    | inl anon ↦ rw anon (IsKept-mono bound _ h)
    | inr user ↦ rw user (
        subst (IsKept t (bound + pos_part cfg.max_top_up_amount))
          (sym (
            covers-state (wallet_repository s) cfg (fare_for_service cfg service)
              ((wallet_repository s).get u w)))
          (get-IsKept u bound w user h))
  ]

  deduct_trip_fare-IsKept :
      (u service : String) (bound : ℕ) (w : W)
      → bound + pos_part cfg.max_top_up_amount < 2 ^ 63
      → IsKept t bound w
      → IsKept t
          (bound + pos_part cfg.max_top_up_amount)
          (deduct_trip_fare (wallet_repository s) cfg u service w).1
  unfolding deduct_trip_fare
  deduct_trip_fare-IsKept u service bound w room h = elim (Bool-cases (is_empty u)) [
    | inl anon ↦ rw anon (IsKept-mono bound _ h)
    | inr user ↦ rw user (charged-IsKept u (fare_for_service cfg service) deduction bound w room h)
  ]

  reward_trip_completion-IsKept :
      (u : String) (bound : ℕ) (w : W)
      → bound + pos_part cfg.max_top_up_amount < 2 ^ 63
      → IsKept t bound w
      → IsKept t
          (bound + pos_part cfg.max_top_up_amount)
          (reward_trip_completion (wallet_repository s) cfg u w).1
  unfolding reward_trip_completion
  reward_trip_completion-IsKept u bound w room h = elim (Bool-cases (is_empty u)) [
    | inl anon ↦ rw anon (IsKept-mono bound _ h)
    | inr user ↦ rw user (elim (Bool-cases (leb_ℤ cfg.reward_points_per_trip (pos 0))) [
      | inl off ↦ rw off (get-IsKept u bound w user h)
      | inr on ↦ rw on (charged-IsKept u cfg.reward_points_per_trip reward bound w room h)
    ])
  ]

  -- One call raises the bound on the balances by no more than the largest top-up.
  call-IsKept :
      (c : WalletCall) (bound : ℕ) (w : W)
      → bound + pos_part cfg.max_top_up_amount < 2 ^ 63
      → IsKept t bound w
      → IsKept t (bound + pos_part cfg.max_top_up_amount) (call s cfg c w)
  unfolding call
  call-IsKept (view u) bound w room h = summary-IsKept u bound w room h
  call-IsKept (credit_call u amount) bound w room h = top_up_wallet-IsKept u amount bound w room h
  call-IsKept (check u service) bound w room h =
      ensure_balance_for_trip-IsKept u service bound w room h
  call-IsKept (deduct u service) bound w room h = deduct_trip_fare-IsKept u service bound w room h
  call-IsKept (grant u) bound w room h = reward_trip_completion-IsKept u bound w room h
  call-IsKept (apply tx) bound w room h = apply_transaction-IsKept tx bound w room h

  calls-IsKept :
      (cs : List WalletCall) (bound : ℕ) (w : W)
      → bound + length cs * pos_part cfg.max_top_up_amount < 2 ^ 63
      → IsKept t bound w
      → IsKept t (bound + length cs * pos_part cfg.max_top_up_amount) (calls s cfg cs w)
  unfolding calls
  calls-IsKept [] bound w room h = subst (λ b. IsKept t b w) (omega arith) h
  calls-IsKept (c ∷ cs) bound w room h =
      let step = pos_part cfg.max_top_up_amount in
      let rest : length (c ∷ cs) * step ≡ step + length cs * step = grind arith in
      subst (λ b. IsKept t b (calls s cfg cs (call s cfg c w))) (omega (arith, rest))
        (calls-IsKept cs (bound + step) (call s cfg c w) (omega (arith, rest))
          (call-IsKept c bound w (omega (arith, rest)) h))

  -- From empty tables, after any calls, failed ones included: every wallet agrees with the ledger,
  -- and every balance lies between zero and the number of calls times the largest top-up, as long
  -- as that product fits an int64.
  pub calls_from_empty :
      (cs : List WalletCall) (w : W)
      → ((u : String) → t.wallet w u ≡ none)
      → t.ledger w ≡ []
      → length cs * pos_part cfg.max_top_up_amount < 2 ^ 63
      → IsKept t (length cs * pos_part cfg.max_top_up_amount) (calls s cfg cs w)
  calls_from_empty cs w bare fresh room =
      subst (λ b. IsKept t b (calls s cfg cs w)) (omega arith)
        (calls-IsKept cs 0 w (omega arith) (record {
          accounted = record {
            balances = λ u. rw (bare u, fresh) (sym (int64-id (pos 0) (ground arith)));
            points = λ u. rw (bare u, fresh) (sym (int64-id (pos 0) (ground arith)));
          };
          within = record {
            low = λ u. rw (bare u) (omega arith);
            high = λ u. rw (bare u) (omega arith);
          };
        }))
