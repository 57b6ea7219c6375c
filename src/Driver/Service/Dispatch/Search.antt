-- ===== src/Driver/Service/Dispatch/Search.antt =====
-- `SearchNearbyDrivers` of backend/internal/domain/driver_service.go.
use uitgo_monorepo.Base.{ℕ, Option, none, some, List, [], ◌∷◌, eqb, if◌then◌else◌}
use uitgo_monorepo.Base.Int.{ℤ}
use uitgo_monorepo.Base.Text.{is_empty}
use uitgo_monorepo.Errors.{message, driver_not_found}
use uitgo_monorepo.Base.Action.{Result, ok, err, Action, pure, raise, always, attempt, ◌>>=◌}
use uitgo_monorepo.Trip.{Float64}
use uitgo_monorepo.Driver.{DriverStatus, DriverLocation, Driver, DriverLocationIndex}
use uitgo_monorepo.Driver.Service.{DriverService, has_online}

abbrev pub append_some : Option Driver → List Driver → List Driver
append_some none rest = rest
append_some (some driver) rest = driver ∷ rest

module _ {W : Type 0} (s : DriverService W) where
  -- The location as it is shown: a zero time is the present.
  unfoldable pub shown_location : Driver → DriverLocation → ℕ → DriverLocation
  shown_location driver location now = record location {
    driver_id = driver.id;
    recorded_at = if eqb location.recorded_at 0 then now else location.recorded_at;
  }

  -- `err == ErrDriverNotFound` skips the driver, any other error ends the search.
  unfoldable pub or_skip : {A : Type 0} → Result A → Action W (Option A)
  or_skip (ok a) = pure (some a)
  or_skip (err driver_not_found) = pure none
  or_skip (err e) = raise e

  unfoldable pub shown_driver :
      DriverLocation → Driver → Option DriverStatus → Action W (Option Driver)
  unfolding shown_location
  shown_driver location driver status =
      if has_online status
      then (if eqb location.recorded_at 0
          then (do
            now ← always s.now
            pure (
                some (record driver {
                  status = status;
                  location = some (shown_location driver location now);
                })))
          else pure (
              some (record driver {
                status = status;
                location = some (shown_location driver location 0);
              })))
      else pure none

  unfoldable pub present :
      DriverLocation → Driver → Option (Option DriverStatus) → Action W (Option Driver)
  unfolding shown_driver
  present location driver none = pure none
  present location driver (some status) = shown_driver location driver status

  unfoldable pub check_presence : DriverLocation → Option Driver → Action W (Option Driver)
  unfolding present
  check_presence location none = pure none
  check_presence location (some driver) = do
    got ← attempt (s.drivers.get_availability driver.id)
    status ← or_skip got
    present location driver status

  -- One round of the loop: the driver to append, or `none` for `continue`.
  unfoldable pub online_driver : Option DriverLocation → Action W (Option Driver)
  unfolding check_presence
  online_driver none = pure none
  online_driver (some location) = if is_empty location.driver_id then pure none else (do
    found ← attempt (s.drivers.find_by_id location.driver_id)
    driver ← or_skip found
    check_presence location driver)

  unfoldable pub online_drivers : List (Option DriverLocation) → Action W (List Driver)
  online_drivers [] = pure []
  online_drivers (location ∷ locations) = do
    first ← online_driver location
    rest ← online_drivers locations
    pure (append_some first rest)

  unfoldable pub search_with :
      Option (DriverLocationIndex W) → Float64 → Float64 → Float64 → ℤ → Action W (List Driver)
  search_with none lat lng radius limit = raise (message "driver locator not configured")
  search_with (some locator) lat lng radius limit = do
    locations ← locator.nearby lat lng radius limit
    online_drivers locations

  unfoldable pub search_nearby_drivers : Float64 → Float64 → Float64 → ℤ → Action W (List Driver)
  unfolding search_with
  search_nearby_drivers = search_with s.locator
