-- ===== src/Trip/Service.antt =====
-- `TripService` of backend/internal/domain/service.go. A notifier's error is logged by the source and
-- goes no further.
pub mod Completing
pub mod Free
use uitgo_monorepo.Base.{
  ℕ, String, Bool, true, false, not, ◌&&◌, ◌||◌, Option, none, some, List, ◌==◌, if◌then◌else◌,
}
use uitgo_monorepo.Base.Int.{ℤ}
use uitgo_monorepo.Base.Text.{is_empty}
use uitgo_monorepo.Errors.{message, invalid_status}
use uitgo_monorepo.Base.Action.{
  Result, ok, err, Action, pure, raise, always, attempt, raise_if, ◌>>=◌, ◌>>◌,
}
use uitgo_monorepo.Trip.{
  TripStatus, requested, accepted, arriving, in_ride, completed, cancelled, other, Trip,
  LocationUpdate, TripRepository,
}
use uitgo_monorepo.Wallet.{WalletOperations}
use uitgo_monorepo.Driver.{TripEventNotifier}

-- The struct, with the clock and the ids that its methods read. Nil wallets or a nil notifier is
-- `none`.
pub record TripService (W : Type 0) : Type 0 where
  pub repo : TripRepository W
  pub wallets : Option (WalletOperations W)
  pub notifier : Option (TripEventNotifier W)
  pub new_id : W → String × W
  pub now : W → ℕ × W

unfoldable pub is_valid_status : TripStatus → Bool
is_valid_status requested = true
is_valid_status accepted = true
is_valid_status arriving = true
is_valid_status in_ride = true
is_valid_status completed = true
is_valid_status cancelled = true
is_valid_status (other s) = false

abbrev pub is_completed : TripStatus → Bool
is_completed completed = true
is_completed _ = false

abbrev pub is_arriving : TripStatus → Bool
is_arriving arriving = true
is_arriving _ = false

abbrev pub is_there : {A : Type 0} → Option A → Bool
is_there none = false
is_there (some a) = true

-- A call that returns an amount beside its error, of which the caller looks at the error alone.
abbrev pub without_amount : {W A : Type 0} → (W → (Result A × ℤ) × W) → Action W A
without_amount f w = let ((r, amount), w') = f w in (r, w')

-- The payment of a trip that was not completed before.
unfoldable pub settle :
    {W : Type 0} → Bool → Option (WalletOperations W) → Option Trip → Action W (Unit {0})
settle needed none trip = pure tt
settle needed (some wallets) none = pure tt
settle needed (some wallets) (some trip) =
    if needed && not (is_completed trip.status)
    then (do
      charged ← without_amount (wallets.deduct_trip_fare trip.rider_id trip.service_id)
      rewarded ← without_amount (wallets.reward_trip_completion trip.rider_id)
      pure tt)
    else pure tt

module _ {W : Type 0} (s : TripService W) where
  checked_balance : Option (WalletOperations W) → String → String → Action W (Unit {0})
  checked_balance none rider_id service_id = pure tt
  checked_balance (some wallets) rider_id service_id =
      without_amount (wallets.ensure_balance_for_trip rider_id service_id)

  id_or_new : String → Action W String
  id_or_new id = if is_empty id then always s.new_id else pure id

  unfoldable pub create : Trip → Action W Trip
  unfolding checked_balance id_or_new
  create trip = do
    raise_if (is_empty trip.rider_id) (message "rider id required")
    raise_if (is_empty trip.origin_text || is_empty trip.dest_text)
        (message "origin and destination required")
    raise_if (is_empty trip.service_id) (message "service id required")
    checked_balance s.wallets trip.rider_id trip.service_id
    id ← id_or_new trip.id
    now ← always s.now
    s.repo.create_trip
        (record trip { id = id; created_at = now; updated_at = now; status = requested })

  unfoldable pub fetch : String → Action W Trip
  fetch id = s.repo.sync.get_trip id

  -- The trip is read where the wallets or the notifier need it.
  unfoldable pub read_before : Bool → String → Action W (Option Trip)
  read_before needed id =
      if needed then (do trip ← s.repo.sync.get_trip id; pure (some trip)) else pure none

  tell_rider : Option (TripEventNotifier W) → Option Trip → TripStatus → Action W (Unit {0})
  tell_rider none trip status = pure tt
  tell_rider (some n) none status = pure tt
  tell_rider (some n) (some trip) status = do
    told ← attempt (n.notify_rider_status_change (record trip { status = status }) status)
    pure tt

  abbrev pub needs_wallet : TripStatus → Bool
  needs_wallet status = is_there s.wallets && is_completed status

  abbrev pub needs_trip : TripStatus → Bool
  needs_trip status = is_there s.notifier && (is_arriving status || is_completed status)

  unfoldable pub update_status : String → TripStatus → Action W (Unit {0})
  unfolding tell_rider
  update_status id status = do
    raise_if (not (is_valid_status status)) invalid_status
    trip ← read_before (needs_wallet status || needs_trip status) id
    s.repo.sync.update_trip_status id status
    settle (needs_wallet status) s.wallets trip
    tell_rider s.notifier trip status

  unfoldable pub assign_driver : String → Option String → Action W (Unit {0})
  assign_driver id driver_id = s.repo.sync.set_trip_driver id driver_id

  unfoldable pub record_location : String → LocationUpdate → Action W (Unit {0})
  record_location trip_id update = s.repo.save_location trip_id update

  unfoldable pub latest_location : String → Action W (Option LocationUpdate)
  latest_location trip_id = s.repo.get_latest_location trip_id

  unfoldable pub list : String → String → ℤ → ℤ → Action W (List Trip × ℤ)
  list user_id role limit offset = do
    raise_if (is_empty user_id) (message "user id required")
    s.repo.list_trips user_id (if role == "driver" then role else "rider") limit offset

  -- The repository may be nil in the source; a service has one here.
  unfoldable pub purge_all : Action W (Unit {0})
  purge_all = s.repo.purge_all
