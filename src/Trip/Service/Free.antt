-- ===== src/Trip/Service/Free.antt =====
-- `UpdateStatus` of backend/internal/domain/service.go under the wallet configuration that
-- backend/internal/http/router.go wires, `DefaultWalletConfig`.
use uitgo_monorepo.Base.{String, ◌≡◌, true, false, some}
use uitgo_monorepo.Base.Text.{is_empty}
use uitgo_monorepo.Errors.{wallet_invalid_amount}
use uitgo_monorepo.Base.Action.{ok, err}
use uitgo_monorepo.Trip.{Trip, completed}
use uitgo_monorepo.Wallet.{WalletRepository}
use uitgo_monorepo.Wallet.Config.{default_wallet_config}
use uitgo_monorepo.Wallet.Service.{wallet_service}
use uitgo_monorepo.Wallet.Service.Gate.{deduct_trip_fare-default}
use uitgo_monorepo.Trip.Service.{
  TripService, is_completed, settle, read_before, update_status, is_valid_status,
}

module _ {W : Type 0} (s : TripService W) (repo : WalletRepository W) where
  settle-default :
      (trip : Trip) (w : W)
      → is_empty trip.rider_id ≡ false
      → is_completed trip.status ≡ false
      → settle true (some (wallet_service repo default_wallet_config)) (some trip) w
        ≡ (err wallet_invalid_amount, w)
  unfolding settle wallet_service
  settle-default trip w rider open_trip =
      rw (open_trip, deduct_trip_fare-default repo trip.rider_id trip.service_id w rider)

  -- Under the default wallet configuration a trip that is not completed cannot be completed without
  -- an error: the status is written, and the call returns `ErrWalletInvalidAmount`.
  pub update_status-unpaid :
      (id : String) (trip : Trip) (w w1 w2 : W)
      → s.wallets ≡ some (wallet_service repo default_wallet_config)
      → s.repo.sync.get_trip id w ≡ (ok trip, w1)
      → s.repo.sync.update_trip_status id completed w1 ≡ (ok tt, w2)
      → is_empty trip.rider_id ≡ false
      → is_completed trip.status ≡ false
      → update_status s id completed w ≡ (err wallet_invalid_amount, w2)
  unfolding update_status read_before is_valid_status
  update_status-unpaid id trip w w1 w2 wallets got written rider open_trip =
      rw (wallets, got, written, settle-default trip w2 rider open_trip)
