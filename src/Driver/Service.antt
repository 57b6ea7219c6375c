-- ===== src/Driver/Service.antt =====
-- The driver service of backend/internal/domain/driver_service.go: onboarding, availability and
-- location. The dispatch of trips is in Driver/Service/Dispatch.
pub mod Dispatch
use uitgo_monorepo.Base.{
  ℕ, String, Bool, true, false, not, ◌&&◌, ◌||◌, Option, none, some, List, [], ◌∷◌, ◌==◌, eqb,
  if◌then◌else◌,
}
use uitgo_monorepo.Base.Int.{ℤ}
use uitgo_monorepo.Base.Text.{is_empty, trim_space, to_upper}
use uitgo_monorepo.Errors.{
  Error, message, driver_not_found, driver_already_exists, no_drivers_available,
}
use uitgo_monorepo.Base.Action.{
  Result, ok, err, Action, pure, raise, always, attempt, raise_if, ◌>>=◌, ◌>>◌,
}
use uitgo_monorepo.Trip.{Float64, TripSyncRepository}
use uitgo_monorepo.Driver.{
  DriverAvailability, offline, online, other, Vehicle, DriverStatus, DriverLocation, Driver,
  DriverRepository, DriverLocationIndex, TripAssignmentRepository, TripEventNotifier,
}

-- The struct, with the clock that its methods read. A nil notifier or locator is `none`.
pub record DriverService (W : Type 0) : Type 0 where
  pub drivers : DriverRepository W
  pub assignments : TripAssignmentRepository W
  pub trips : TripSyncRepository W
  pub notifier : Option (TripEventNotifier W)
  pub locator : Option (DriverLocationIndex W)
  pub now : W → ℕ × W

pub record DriverRegistrationInput : Type 0 where
  pub full_name : String
  pub phone : String
  pub license_number : String
  pub avatar_url : Option String
  pub vehicle : Option Vehicle

pub record DriverProfileUpdate : Type 0 where
  pub full_name : Option String
  pub phone : Option String
  pub license_number : Option String
  pub avatar_url : Option String
  pub vehicle : Option Vehicle

-- The bit pattern of 5.0.
abbrev pub five_stars : Float64
five_stars = 0x4014000000000000

unfoldable pub sanitize_vehicle : Vehicle → Vehicle
sanitize_vehicle v = record v {
  make = trim_space v.make;
  model = trim_space v.model;
  color = trim_space v.color;
  plate_number = to_upper (trim_space v.plate_number);
}

abbrev pub is_online : DriverAvailability → Bool
is_online online = true
is_online offline = false
is_online (other s) = false

abbrev pub is_offline : DriverAvailability → Bool
is_offline offline = true
is_offline online = false
is_offline (other s) = false

-- `status == nil || status.Availability != DriverOnline` is `not` of this.
abbrev pub has_online : Option DriverStatus → Bool
has_online none = false
has_online (some status) = is_online status.availability

abbrev pub new_driver : String → String → DriverRegistrationInput → Driver
new_driver user_id full_name input = record {
  id = "";
  user_id = user_id;
  full_name = full_name;
  phone = trim_space input.phone;
  license_number = trim_space input.license_number;
  avatar_url = input.avatar_url;
  rating = five_stars;
  created_at = 0;
  updated_at = 0;
  vehicle = none;
  status = none;
  location = none;
}

trimmed_or : Option String → String → String
trimmed_or none old = old
trimmed_or (some new) old = trim_space new

-- A name that is blank after trimming is not taken.
name_or : Option String → String → String
name_or none old = old
name_or (some new) old = if is_empty (trim_space new) then old else trim_space new

given_or : Option String → Option String → Option String
given_or none old = old
given_or (some new) old = some new

unfoldable pub patched : DriverProfileUpdate → Driver → Driver
unfolding trimmed_or name_or given_or
patched updates driver = record driver {
  full_name = name_or updates.full_name driver.full_name;
  phone = trimmed_or updates.phone driver.phone;
  license_number = trimmed_or updates.license_number driver.license_number;
  avatar_url = given_or updates.avatar_url driver.avatar_url;
}

module _ {W : Type 0} (s : DriverService W) where
  -- What was read of the status or the location, if it was read and is there.
  with_status : Driver → Result (Option DriverStatus) → Driver
  with_status driver (ok (some status)) = record driver { status = some status }
  with_status driver (ok none) = driver
  with_status driver (err e) = driver

  with_location : Driver → Result (Option DriverLocation) → Driver
  with_location driver (ok (some location)) = record driver { location = some location }
  with_location driver (ok none) = driver
  with_location driver (err e) = driver

  unfoldable pub enrich_driver : Driver → Action W Driver
  unfolding with_status with_location
  enrich_driver driver = do
    status ← attempt (s.drivers.get_availability driver.id)
    location ← attempt (s.drivers.latest_location driver.id)
    pure (with_location (with_status driver status) location)

  -- `FindByUserID` must have found nobody.
  unfoldable pub check_absent : Result Driver → Action W (Unit {0})
  check_absent (ok existing) = raise driver_already_exists
  check_absent (err driver_not_found) = pure tt
  check_absent (err e) = raise e

  -- The vehicle is saved, or the driver's row is deleted again.
  unfoldable pub keep_or_rollback : Driver → Result Vehicle → Action W Driver
  keep_or_rollback driver (ok vehicle) = pure (record driver { vehicle = some vehicle })
  keep_or_rollback driver (err e) = do attempt (s.drivers.delete_by_id driver.id) >>= λ _. raise e

  unfoldable pub save_new_vehicle : Driver → Option Vehicle → Action W Driver
  save_new_vehicle driver none = pure driver
  save_new_vehicle driver (some v) = do
    saved ← attempt (s.drivers.save_vehicle (sanitize_vehicle (record v { driver_id = driver.id })))
    keep_or_rollback driver saved

  unfoldable pub with_offline : Driver → Result DriverStatus → Driver
  with_offline driver (ok status) = record driver { status = some status }
  with_offline driver (err e) = driver

  unfoldable pub register : String → DriverRegistrationInput → Action W Driver
  unfolding with_offline
  register user_id input = do
    raise_if (is_empty user_id) (message "user id required")
    let full_name = trim_space input.full_name
    raise_if (is_empty full_name) (message "full name required")
    existing ← attempt (s.drivers.find_by_user_id user_id)
    check_absent existing
    created ← s.drivers.create (new_driver user_id full_name input)
    driver ← save_new_vehicle created input.vehicle
    status ← attempt (s.drivers.set_availability driver.id offline)
    pure (with_offline driver status)

  unfoldable pub me : String → Action W Driver
  me user_id = do
    raise_if (is_empty user_id) (message "user id required")
    driver ← s.drivers.find_by_user_id user_id
    enrich_driver driver

  found_vehicle : Driver → Result (Option Vehicle) → Driver
  found_vehicle driver (ok vehicle) = record driver { vehicle = vehicle }
  found_vehicle driver (err e) = record driver { vehicle = none }

  -- A given vehicle is saved; a driver that shows none is looked up.
  unfoldable pub updated_vehicle : Driver → Option Vehicle → Option Vehicle → Action W Driver
  unfolding found_vehicle
  updated_vehicle driver (some v) shown = do
    vehicle ← s.drivers.save_vehicle (sanitize_vehicle (record v { driver_id = driver.id }))
    pure (record driver { vehicle = some vehicle })
  updated_vehicle driver none none = do
    found ← attempt (s.drivers.find_vehicle driver.id)
    pure (found_vehicle driver found)
  updated_vehicle driver none (some shown) = pure driver

  unfoldable pub update_profile : String → DriverProfileUpdate → Action W Driver
  update_profile user_id updates = do
    raise_if (is_empty user_id) (message "user id required")
    found ← s.drivers.find_by_user_id user_id
    let driver = patched updates found
    s.drivers.update driver
    shown ← updated_vehicle driver updates.vehicle driver.vehicle
    enrich_driver shown

  -- Going offline removes the driver from the index.
  unfoldable pub leave_index :
      Option (DriverLocationIndex W) → String → DriverAvailability → Action W (Unit {0})
  leave_index none driver_id availability = pure tt
  leave_index (some locator) driver_id availability =
      if is_offline availability then locator.remove driver_id else pure tt

  unfoldable pub update_availability : String → DriverAvailability → Action W DriverStatus
  unfolding leave_index
  update_availability driver_id availability = do
    raise_if (is_empty driver_id) (message "driver id required")
    raise_if (not (is_online availability) && not (is_offline availability))
        (message "invalid availability")
    driver ← s.drivers.find_by_id driver_id
    status ← s.drivers.set_availability driver_id availability
    leave_index s.locator driver_id availability
    pure status

  enter_index : Option (DriverLocationIndex W) → String → DriverLocation → Action W (Unit {0})
  enter_index none driver_id location = pure tt
  enter_index (some locator) driver_id location = locator.upsert driver_id location

  -- The index is given the location as `RecordLocation` of the repository left it.
  unfoldable pub record_location : String → Option DriverLocation → Action W (Unit {0})
  unfolding enter_index
  record_location driver_id none = do
    raise_if (is_empty driver_id) (message "driver id required")
    raise (message "location required")
  record_location driver_id (some location) = do
    raise_if (is_empty driver_id) (message "driver id required")
    recorded ← s.drivers.record_location driver_id location
    enter_index s.locator driver_id recorded

  available_or_error : Option Driver → Action W Driver
  available_or_error none = raise no_drivers_available
  available_or_error (some driver) = enrich_driver driver

  unfoldable pub find_available_driver : Action W Driver
  unfolding available_or_error
  find_available_driver = do found ← s.drivers.find_available; available_or_error found
