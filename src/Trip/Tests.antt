-- ===== src/Trip/Tests.antt =====
-- The theorems on trips at inputs that meet their hypotheses.
use uitgo_monorepo.Base.{◌≡◌, refl, true, none, some, [], ◌∷◌, All, length, ◌≤◌}
use uitgo_monorepo.Base.Int.{pos}
use uitgo_monorepo.Errors.{wallet_invalid_amount}
use uitgo_monorepo.Base.Action.{err, raise}
use uitgo_monorepo.Base.Action.Ensures.{Ensures}
use uitgo_monorepo.Trip.{in_ride, completed}
use uitgo_monorepo.Trip.Store.{TripModel}
use uitgo_monorepo.Trip.Repository.{
  to_trip, trip_repository, trip_sync_repository, get_trip, found_trip, update_trip_status,
  updated_row,
}
use uitgo_monorepo.Trip.Service.{TripService, settle, update_status, list}
use uitgo_monorepo.Trip.Service.Completing.{Paid, HalfPaid, settle-Paid}
use uitgo_monorepo.Trip.Service.Free.{update_status-unpaid}
use uitgo_monorepo.Trip.Listing.{IsOwn, list-IsOwn}
use uitgo_monorepo.Driver.Memory.{Memory, runtime, trip_store, trip_of, update_trip}
use uitgo_monorepo.Driver.Memory.Laws.{queries}
use uitgo_monorepo.Wallet.{WalletRepository}
use uitgo_monorepo.Wallet
use uitgo_monorepo.Wallet.Repository.{wallet_repository}
use uitgo_monorepo.Wallet.Config.{WalletServiceConfig, default_wallet_config}
use uitgo_monorepo.Wallet.Service.{wallet_service}

abbrev ride : TripModel
ride = record {
  id = "t";
  rider_id = "u";
  driver_id = some "d";
  service_id = "uit-go";
  origin_text = "A";
  dest_text = "B";
  origin_lat = none;
  origin_lng = none;
  dest_lat = none;
  dest_lng = none;
  status = in_ride;
  created_at = 1;
  updated_at = 1;
}

abbrev priced : WalletServiceConfig
priced = record {
  min_top_up_amount = pos 10000;
  max_top_up_amount = pos 5000000;
  default_trip_fare = pos 15000;
  reward_points_per_trip = pos 10;
  service_fares = [];
}

abbrev rich : Wallet.Memory.Memory
rich = record {
  wallets =
      record { user_id = "u"; balance = pos 50000; reward_points = pos 0; updated_at = 1 } ∷ [];
  entries = [];
  clock = 7;
}

settle-Paid_example :
    Ensures
      (λ a w'. Paid Wallet.Memory.tables priced "u" "uit-go" rich w')
      (λ e w'. HalfPaid Wallet.Memory.tables priced "u" "uit-go" rich w')
      (settle true
        (some (wallet_service (wallet_repository Wallet.Memory.store) priced))
        (some (to_trip ride))
        rich)
settle-Paid_example = settle-Paid Wallet.Memory.store-IsWalletStore priced (to_trip ride) rich refl

-- Wallets that are never reached.
abbrev no_wallets : WalletRepository Memory
no_wallets = record {
  get = λ u. raise wallet_invalid_amount;
  list_transactions = λ u limit offset. raise wallet_invalid_amount;
  apply_transaction = λ tx. raise wallet_invalid_amount;
}

abbrev service : TripService Memory
service = record {
  repo = trip_repository runtime trip_store;
  wallets = some (wallet_service no_wallets default_wallet_config);
  notifier = none;
  new_id = runtime.new_id;
  now = runtime.now;
}

abbrev riding : Memory
riding = record { trips = ride ∷ []; assignments = []; onlines = []; clock = 7 }

abbrev arrived : Memory
arrived = record {
  trips = record ride { status = completed; updated_at = 8 } ∷ ride ∷ [];
  assignments = [];
  onlines = [];
  clock = 8;
}

update_status-unpaid_example :
    update_status service "t" completed riding ≡ (err wallet_invalid_amount, arrived)
unfolding trip_repository trip_sync_repository get_trip found_trip update_trip_status updated_row
    trip_store trip_of update_trip
update_status-unpaid_example =
    update_status-unpaid service no_wallets "t" (to_trip ride) riding riding arrived refl refl refl
      refl refl

list-IsOwn_example :
    Ensures
      (λ a w'. All (IsOwn "d" "driver") a.0 × (length a.0 ≤ 100))
      (λ e w'. Unit {0})
      (list service "d" "driver" (pos 500) (pos 0) riding)
list-IsOwn_example = list-IsOwn runtime queries service "d" "driver" (pos 500) (pos 0) riding refl
