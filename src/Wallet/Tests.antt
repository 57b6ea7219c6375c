-- ===== src/Wallet/Tests.antt =====
-- Runs of the wallet model on concrete inputs, and the theorems at inputs that meet their
-- hypotheses.
use uitgo_monorepo.Base.{eq_iff, ◌≡◌, refl, some, List, [], ◌∷◌, arith, ◌⊎◌}
use uitgo_monorepo.Base.Int.{pos, ◌-ℤ◌, ◌≤ℤ◌, int64}
use uitgo_monorepo.Base.Text.{to_lower}
use uitgo_monorepo.Errors.{Error, wallet_invalid_amount, wallet_insufficient_funds}
use uitgo_monorepo.Base.Action.{Result, err}
use uitgo_monorepo.Base.Action.Ensures.{Ensures}
use uitgo_monorepo.Wallet.{top_up, deduction, WalletSummary, WalletTransaction}
use uitgo_monorepo.Wallet.Store.{Same}
use uitgo_monorepo.Wallet.Repository.{
  apply_transaction, apply_body, found_or_created, apply_kind, write_rows, get, wallet_repository,
}
use uitgo_monorepo.Wallet.Effect.{Applied, Refusal, Reads, balance_of, points_of}
use uitgo_monorepo.Wallet.Effect.Rows.{get-Reads}
use uitgo_monorepo.Wallet.Effect.Apply.{apply_transaction-Applied}
use uitgo_monorepo.Wallet.Balance.{IsSolvent, apply_transaction-IsSolvent}
use uitgo_monorepo.Wallet.Memory.{Memory, row_of, store, tables, store-IsWalletStore}
use uitgo_monorepo.Wallet.Config.{
  WalletServiceConfig, default_wallet_config, with_wallet_config, fare_for_service, options,
  configured, fare_of, copy_fares, configured-fare_nonneg,
}
use uitgo_monorepo.Wallet.Service.{request, deduct_trip_fare}
use uitgo_monorepo.Wallet.Service
use uitgo_monorepo.Wallet.Service.Gate.{
  IsAccepted, apply_transaction_gate, deduct_trip_fare-default,
}
use uitgo_monorepo.Wallet.Service.Kept.{IsKept}
use uitgo_monorepo.Wallet.Service.History.{
  WalletCall, credit_call, deduct, grant, view, calls, calls_from_empty,
}

abbrev start : Memory
start = record { wallets = []; entries = []; clock = 0 }

abbrev rich : Memory
rich = record {
  wallets =
      record { user_id = "u"; balance = pos 50000; reward_points = pos 0; updated_at = 1 } ∷ [];
  entries = [];
  clock = 7;
}

abbrev fare : WalletTransaction
fare = request "u" (pos 20000) deduction

abbrev after_fare : Result (WalletSummary × WalletTransaction) × Memory
after_fare = apply_transaction store (some fare) rich

deduct_run : balance_of (tables.wallet (apply_transaction store (some fare) rich).1 "u") ≡ pos 30000
unfolding apply_transaction apply_body found_or_created apply_kind write_rows store int64 ◌-ℤ◌
deduct_run = refl

overdraft_run :
    (apply_transaction store (some (request "u" (pos 60000) deduction)) rich).0
    ≡ err wallet_insufficient_funds
unfolding apply_transaction apply_body found_or_created apply_kind store
overdraft_run = refl

-- A bike and a car configured at a price; the id is looked up in lower case.
abbrev priced : WalletServiceConfig
priced = record {
  min_top_up_amount = pos 0;
  max_top_up_amount = pos 0;
  default_trip_fare = pos 15000;
  reward_points_per_trip = pos 10;
  service_fares = ("UIT-Bike", pos 9000) ∷ ("uit-car", pos 0) ∷ [];
}

fare_run :
    (fare_for_service (with_wallet_config priced default_wallet_config) "uit-BIKE" ≡ pos 9000)
    × (fare_for_service (with_wallet_config priced default_wallet_config) "uit-car" ≡ pos 15000)
unfolding fare_for_service fare_of with_wallet_config copy_fares to_lower
fare_run = (refl, refl)

apply_transaction-Applied_example :
    Ensures
      (λ a w'. Applied tables fare rich a w')
      (λ e w'. Refusal tables (λ _. ⊥) fare rich e × Same tables rich w')
      (apply_transaction store (some fare) rich)
apply_transaction-Applied_example = apply_transaction-Applied store-IsWalletStore fare rich

get-Reads_example :
    Ensures
      (λ found w'.
        (found.balance ≡ balance_of (tables.wallet rich "u"))
        × (found.reward_points ≡ points_of (tables.wallet rich "u"))
        × Reads tables rich w')
      (λ e w'. ⊥ × Reads tables rich w')
      (get store "u" rich)
get-Reads_example = get-Reads store-IsWalletStore "u" rich refl

rich-IsSolvent : IsSolvent tables rich
unfolding row_of
rich-IsSolvent = record {
  nonneg = λ u. ground (arith, eq_iff "u" u);
  fits = λ u. ground (arith, eq_iff "u" u);
}

abbrev refill : WalletTransaction
refill = request "u" (pos 20000) top_up

apply_transaction-IsSolvent_example :
    Ensures
      (λ a w'. IsSolvent tables w')
      (λ e w'. IsSolvent tables w')
      (apply_transaction store (some refill) rich)
unfolding row_of
apply_transaction-IsSolvent_example =
    apply_transaction-IsSolvent store-IsWalletStore refill rich (omega arith) rich-IsSolvent

abbrev script : List WalletCall
script =
    view "u"
    ∷ credit_call "u" (pos 20000)
    ∷ deduct "u" "uit-go"
    ∷ credit_call "v" (pos 7)
    ∷ grant "v"
    ∷ []

calls_from_empty_example : IsKept tables 25000000 (calls store default_wallet_config script start)
unfolding row_of
calls_from_empty_example =
    calls_from_empty store-IsWalletStore default_wallet_config script start (λ u. refl) refl
      (omega arith)

apply_transaction_gate_example :
    (IsAccepted default_wallet_config refill
      × (Service.apply_transaction
            (wallet_repository store)
            default_wallet_config
            (some refill)
            rich
          ≡ (wallet_repository store).apply_transaction (some refill) rich))
    ⊎ ((¬ IsAccepted default_wallet_config refill)
        × ((e : Error) × (Service.apply_transaction
                (wallet_repository store)
                default_wallet_config
                (some refill)
                rich
              ≡ (err e, rich))))
apply_transaction_gate_example =
    apply_transaction_gate (wallet_repository store) default_wallet_config refill rich

free_ride :
    deduct_trip_fare (wallet_repository store) default_wallet_config "u" "uit-car" rich
    ≡ ((err wallet_invalid_amount, pos 0), rich)
free_ride = deduct_trip_fare-default (wallet_repository store) "u" "uit-car" rich refl

configured-fare_nonneg_example :
    pos 0 ≤ℤ fare_for_service (configured (options (priced ∷ [])) default_wallet_config) "uit-go"
configured-fare_nonneg_example = configured-fare_nonneg (priced ∷ []) "uit-go"
