-- ===== src/Driver/Service/Dispatch.antt =====
-- The dispatch of trips: the second half of backend/internal/domain/driver_service.go. A notifier's
-- error is logged by the source and goes no further.
pub mod Search
pub mod Shown
pub mod Lifecycle
pub mod Laws
pub mod Confined
pub mod Assigning
pub mod Answering
pub mod Declining
pub mod Progress
pub mod Moving
pub mod Database
pub mod Repositories
pub mod Rereading
pub mod AssignmentRows
pub mod Wiring
use uitgo_monorepo.Base.{
  ℕ, String, Bool, true, false, not, ◌&&◌, ◌||◌, Option, none, some, List, [], ◌∷◌, ◌==◌, eqb,
  if◌then◌else◌,
}
use uitgo_monorepo.Base.Int.{ℤ}
use uitgo_monorepo.Base.Text.{is_empty}
use uitgo_monorepo.Errors.{
  Error, message, invalid_status, driver_not_found, driver_offline, assignment_conflict,
  trip_assignment_not_found,
}
use uitgo_monorepo.Base.Action.{
  Result, ok, err, Action, pure, raise, always, attempt, raise_if, ◌>>=◌, ◌>>◌,
}
use uitgo_monorepo.Trip.{
  Float64, TripStatus, requested, accepted, arriving, in_ride, completed, cancelled, other, Trip,
}
use uitgo_monorepo.Driver
use uitgo_monorepo.Driver.{
  DriverStatus, DriverLocation, Driver, TripAssignmentStatus, TripAssignment, DriverLocationIndex,
  TripEventNotifier,
}
use uitgo_monorepo.Driver.Service.{DriverService, has_online, enrich_driver, find_available_driver}

-- The tests of a status against the constants.
abbrev pub is_final : TripStatus → Bool
is_final completed = true
is_final cancelled = true
is_final _ = false

abbrev pub is_cancelled : TripStatus → Bool
is_cancelled cancelled = true
is_cancelled _ = false

-- The four statuses that a driver may ask for.
unfoldable pub is_driver_target : TripStatus → Bool
is_driver_target arriving = true
is_driver_target in_ride = true
is_driver_target completed = true
is_driver_target cancelled = true
is_driver_target _ = false

unfoldable pub allowed_driver_transition : TripStatus → TripStatus → Bool
allowed_driver_transition accepted arriving = true
allowed_driver_transition accepted cancelled = true
allowed_driver_transition accepted completed = true
allowed_driver_transition arriving in_ride = true
allowed_driver_transition arriving cancelled = true
allowed_driver_transition arriving completed = true
allowed_driver_transition in_ride completed = true
allowed_driver_transition in_ride cancelled = true
allowed_driver_transition requested cancelled = true
allowed_driver_transition requested completed = true
allowed_driver_transition _ _ = false

abbrev pub is_accepted : TripAssignmentStatus → Bool
is_accepted TripAssignmentStatus.accepted = true
is_accepted _ = false

abbrev pub is_released : TripAssignmentStatus → Bool
is_released TripAssignmentStatus.declined = true
is_released TripAssignmentStatus.cancelled = true
is_released _ = false

-- The active assignment that was found belongs to another trip and is not released.
unfoldable pub conflicts : String → Option TripAssignment → Bool
conflicts trip_id none = false
conflicts trip_id (some active) = not (active.trip_id == trip_id) && not (is_released active.status)

-- `*p == x` of a pointer that may be nil.
abbrev pub points_to : Option String → String → Bool
points_to none x = false
points_to (some y) x = y == x

module _ {W : Type 0} (s : DriverService W) where
  unfoldable pub tell_driver :
      Option (TripEventNotifier W) → Driver → Trip → Action W (Result (Unit {0}))
  tell_driver none driver trip = pure (ok tt)
  tell_driver (some n) driver trip = attempt (n.notify_driver_trip_assigned driver trip)

  unfoldable pub tell_rider :
      Option (TripEventNotifier W) → Trip → TripStatus → Action W (Result (Unit {0}))
  tell_rider none trip status = pure (ok tt)
  tell_rider (some n) trip status = attempt (n.notify_rider_status_change trip status)

  unfoldable pub assign_trip : String → String → Action W TripAssignment
  unfolding tell_driver
  assign_trip trip_id driver_id = do
    raise_if (is_empty trip_id || is_empty driver_id) (message "trip id and driver id required")
    trip ← s.trips.get_trip trip_id
    driver ← s.drivers.find_by_id driver_id
    status ← s.drivers.get_availability driver_id
    raise_if (not (has_online status)) driver_offline
    active ← s.assignments.find_active_by_driver driver_id
    raise_if (conflicts trip_id active) assignment_conflict
    assignment ← s.assignments.assign trip_id driver_id
    s.trips.set_trip_driver trip_id (some driver_id)
    told ← tell_driver s.notifier driver trip
    pure assignment

  unfoldable pub assign_next_available_driver : String → Action W Driver
  assign_next_available_driver trip_id = do
    driver ← find_available_driver s
    assignment ← assign_trip trip_id driver.id
    pure driver

  -- `AcceptTrip` where `UpdateStatus` found no assignment of the driver: the trip is assigned first.
  unfoldable pub accepted_or_assigned :
      String → String → ℕ → Result TripAssignment → Action W TripAssignment
  accepted_or_assigned trip_id driver_id now (ok assignment) = pure assignment
  accepted_or_assigned trip_id driver_id now (err trip_assignment_not_found) = do
    assigned ← s.assignments.assign trip_id driver_id
    s.trips.set_trip_driver trip_id (some driver_id)
    s.assignments.update_status trip_id driver_id TripAssignmentStatus.accepted (some now)
  accepted_or_assigned trip_id driver_id now (err e) = raise e

  unfoldable pub accept_trip : String → String → Action W TripAssignment
  accept_trip trip_id driver_id = do
    now ← always s.now
    updated ←
        attempt
          (s.assignments.update_status trip_id driver_id TripAssignmentStatus.accepted (some now))
    assignment ← accepted_or_assigned trip_id driver_id now updated
    s.trips.update_trip_status trip_id accepted
    pure assignment

  -- `DeclineTrip` after `UpdateStatus`; nil is returned where there was no assignment.
  unfoldable pub release : String → Result TripAssignment → Action W (Option TripAssignment)
  release trip_id (ok assignment) = do s.trips.set_trip_driver trip_id none; pure (some assignment)
  release trip_id (err trip_assignment_not_found) = do
    ignored ← attempt (s.trips.set_trip_driver trip_id none)
    pure none
  release trip_id (err e) = raise e

  unfoldable pub decline_trip : String → String → Action W (Option TripAssignment)
  decline_trip trip_id driver_id = do
    now ← always s.now
    updated ←
        attempt
          (s.assignments.update_status trip_id driver_id TripAssignmentStatus.declined (some now))
    release trip_id updated

  -- The first part of `UpdateTripStatus`: a trip without the driver is given to it.
  unfoldable pub claimed : String → String → Trip → Action W Trip
  claimed trip_id driver_id trip = if points_to trip.driver_id driver_id then pure trip else (do
    assigned ← s.assignments.assign trip_id driver_id
    s.trips.set_trip_driver trip_id (some driver_id)
    pure (record trip { driver_id = some driver_id }))

  -- The assignment of the trip, made anew if it is another driver's.
  unfoldable pub own_assignment : String → String → Option TripAssignment → Action W TripAssignment
  own_assignment trip_id driver_id none = s.assignments.assign trip_id driver_id
  own_assignment trip_id driver_id (some a) =
      if a.driver_id == driver_id then pure a else s.assignments.assign trip_id driver_id

  unfoldable pub promote : String → String → TripStatus → TripAssignment → Action W (Unit {0})
  promote trip_id driver_id next assignment =
      if not (is_cancelled next) && not (is_accepted assignment.status)
      then (do
        promoted ← s.assignments.update_status trip_id driver_id TripAssignmentStatus.accepted none
        pure tt)
      else pure tt

  -- A finished trip frees its driver; an error of the update is dropped.
  unfoldable pub free_driver : String → String → TripStatus → Action W (Unit {0})
  free_driver trip_id driver_id next =
      if is_final next
      then (do
        ignored ←
            attempt
              (s.assignments.update_status trip_id driver_id TripAssignmentStatus.cancelled none)
        pure tt)
      else pure tt

  unfoldable pub update_trip_status : String → String → TripStatus → Action W Trip
  unfolding tell_rider
  update_trip_status trip_id driver_id next = do
    raise_if (not (is_driver_target next)) invalid_status
    found ← s.trips.get_trip trip_id
    trip ← claimed trip_id driver_id found
    raise_if (not (allowed_driver_transition trip.status next)) invalid_status
    current ← s.assignments.get_by_trip_id trip_id
    assignment ← own_assignment trip_id driver_id current
    promote trip_id driver_id next assignment
    s.trips.update_trip_status trip_id next
    free_driver trip_id driver_id next
    told ← tell_rider s.notifier (record trip { status = next }) next
    pure (record trip { status = next })

  -- The assignments are a parameter that may be nil in the source; a service has them here.
  unfoldable pub clear_assignments : Action W (Unit {0})
  clear_assignments = s.assignments.clear_all
