-- ===== src/Http/Trips.antt =====
-- The handlers of trips in backend/internal/http/handlers/trips.go. The hubs and the queue of new
-- trips are interfaces here.
pub mod Access
mod Tests
pub mod Data
use uitgo_monorepo.Base.{
  ℕ, String, Bool, true, false, not, ◌==◌, ◌||◌, Option, none, some, List, map, if◌then◌else◌,
}
use uitgo_monorepo.Base.Int.{ℤ}
use uitgo_monorepo.Base.Text.{is_empty, trim_space, to_lower}
use uitgo_monorepo.Errors.{
  Error, message, response, trip_not_found, invalid_status, driver_not_found,
  trip_assignment_not_found, driver_offline, assignment_conflict, wallet_insufficient_funds,
}
use uitgo_monorepo.Base.Action.{Result, ok, err, Action, pure, attempt, raise_if, ◌>>=◌, ◌>>◌}
use uitgo_monorepo.Http.{Context, refuse, or_refuse, bound}
use uitgo_monorepo.Http.Params.{ListQuery, paging}
use uitgo_monorepo.Trip.{
  Float64, TripStatus, accepted, requested, arriving, in_ride, completed, cancelled, Trip,
  LocationUpdate,
}
use uitgo_monorepo.Trip.Service.{TripService, create, fetch, update_status, latest_location, list}
use uitgo_monorepo.Driver.{Driver}
use uitgo_monorepo.Driver.Service.{DriverService, me}
use uitgo_monorepo.Driver.Service.Dispatch.{
  assign_trip, assign_next_available_driver, accept_trip, decline_trip,
}
use uitgo_monorepo.Driver.Service.Dispatch
use uitgo_monorepo.Matching.{TripEvent}
use uitgo_monorepo.Http.Trips.Data.{
  TripDispatcher, HubManager, TripHandler, CreateTripRequest, TripResponse, TripListResponse,
  UpdateResponse, to_status, driver_error_status, driver_refusal, not_fetched, not_trip_created,
  not_updated, new_trip, trip_event, role_of, missing_user, location_or_none, is_driver_of,
}

module _ {W : Type 0} (h : TripHandler W) where
  unfoldable pub list_trips : Context → ListQuery → Action W (ℕ × TripListResponse)
  list_trips c q = do
    raise_if (missing_user c) (response 401 (message "missing user context"))
    let role = if to_lower q.role == "driver" then "driver" else "rider"
    let (limit, offset) = paging q
    (trips, total) ←
        or_refuse (λ e. response 500 (message "failed to list trips"))
          (list h.service c.user_id role limit offset)
    pure (
      200,
      record {
        items = map (λ (trip : Trip). (trip, none)) trips;
        total = total;
        limit = limit;
        offset = offset;
      },
    )

  was_published : Result (Unit {0}) → Bool
  was_published (ok u) = true
  was_published (err e) = false

  scheduled_by : Option (TripDispatcher W) → Trip → Action W Bool
  unfolding was_published
  scheduled_by none trip = pure false
  scheduled_by (some dispatcher) trip = do
    published ← attempt (dispatcher.publish (trip_event trip))
    pure (was_published published)

  assigned_by : Option (DriverService W) → Bool → Trip → Action W (Unit {0})
  assigned_by none scheduled trip = pure tt
  assigned_by (some drivers) scheduled trip =
      if scheduled
      then pure tt
      else (do assigned ← attempt (assign_next_available_driver drivers trip.id); pure tt)

  -- A new trip goes to the queue, or to the next driver where there is no queue or it failed.
  unfoldable pub offered : Trip → Action W (Unit {0})
  unfolding scheduled_by assigned_by
  offered trip = do
    scheduled ← scheduled_by h.dispatcher trip
    assigned_by h.driver_service scheduled trip

  unfoldable pub create_trip : Context → Result CreateTripRequest → Action W (ℕ × TripResponse)
  create_trip c body = do
    req ← bound body
    raise_if (missing_user c) (response 401 (message "missing user context"))
    trip ← or_refuse not_trip_created (create h.service (new_trip c.user_id req))
    offered trip
    pure (201, (trip, none))

  -- The profile of the caller is read where the trip has a driver.
  unfoldable pub drives : Option (DriverService W) → Option String → String → Action W Bool
  drives drivers none user_id = pure false
  drives none (some driver_id) user_id = pure false
  drives (some drivers) (some driver_id) user_id =
      if is_empty driver_id
      then pure false
      else (do driver ← attempt (me drivers user_id); pure (is_driver_of driver driver_id))

  unfoldable pub can_access_trip : Trip → String → String → Action W Bool
  can_access_trip trip user_id role =
      if role == "admin"
      then pure true
      else if trip.rider_id == user_id
      then pure true
      else drives h.driver_service trip.driver_id user_id

  -- The trip of a request whose user may see it.
  unfoldable pub accessible : Context → String → Action W Trip
  accessible c trip_id = do
    trip ← or_refuse not_fetched (fetch h.service trip_id)
    allowed ← can_access_trip trip c.user_id (role_of c)
    raise_if (not allowed) (response 403 (message "access denied"))
    pure trip

  unfoldable pub get_trip : Context → String → Action W (ℕ × TripResponse)
  get_trip c trip_id = do
    raise_if (missing_user c) (response 401 (message "authentication required"))
    trip ← accessible c trip_id
    location ← or_refuse (λ e. response 500 e) (latest_location h.service trip_id)
    pure (200, (trip, location))

  -- The trip is read again after the update.
  refetched : String → TripStatus → Result Trip → Action W (ℕ × UpdateResponse)
  refetched trip_id status (err e) = pure (200, UpdateResponse.brief trip_id status)
  refetched trip_id status (ok trip) = do
    location ← attempt (latest_location h.service trip_id)
    pure (200, UpdateResponse.whole (trip, location_or_none location))

  unfoldable pub updated : String → TripStatus → Action W (ℕ × UpdateResponse)
  unfolding refetched
  updated trip_id status = do
    or_refuse not_updated (update_status h.service trip_id status)
    h.hubs.broadcast_status trip_id status
    trip ← attempt (fetch h.service trip_id)
    refetched trip_id status trip

  unfoldable pub update_trip_status :
      Context → String → Result String → Action W (ℕ × UpdateResponse)
  update_trip_status c trip_id body = do
    raise_if (missing_user c) (response 401 (message "authentication required"))
    status ← bound body
    raise_if (is_empty status) (response 400 (message "status required"))
    trip ← accessible c trip_id
    updated trip_id (to_status status)

  -- The trip as the reply to a driver or an admin shows it.
  unfoldable pub shown_trip : String → Action W (ℕ × TripResponse)
  shown_trip trip_id = do
    trip ← or_refuse (λ e. response 500 (message "failed to fetch trip")) (fetch h.service trip_id)
    location ← attempt (latest_location h.service trip_id)
    pure (200, (trip, location_or_none location))

  -- `h.driverService`, which may be nil.
  unfoldable pub dispatch_service : Action W (DriverService W)
  dispatch_service = elim h.driver_service [
    | none ↦ refuse 503 (message "driver dispatch unavailable")
    | some drivers ↦ pure drivers
  ]

  unfoldable pub assign_driver : Context → String → Result String → Action W (ℕ × TripResponse)
  assign_driver c trip_id body = do
    drivers ← dispatch_service
    raise_if (missing_user c) (response 401 (message "authentication required"))
    raise_if (not (role_of c == "admin")) (response 403 (message "admin access required"))
    raise_if (is_empty trip_id) (response 400 (message "trip id required"))
    driver_id ← bound body
    assignment ← or_refuse driver_refusal (assign_trip drivers trip_id driver_id)
    shown_trip trip_id

  unfoldable pub require_driver : Context → Action W (DriverService W × Driver)
  require_driver c = do
    drivers ← dispatch_service
    raise_if (missing_user c) (response 401 (message "missing user context"))
    driver ← or_refuse driver_refusal (me drivers c.user_id)
    pure (drivers, driver)

  unfoldable pub accept : Context → String → Action W (ℕ × TripResponse)
  accept c trip_id = do
    (drivers, driver) ← require_driver c
    raise_if (is_empty trip_id) (response 400 (message "trip id required"))
    assignment ← or_refuse driver_refusal (accept_trip drivers trip_id driver.id)
    h.hubs.broadcast_status trip_id accepted
    shown_trip trip_id

  unfoldable pub decline : Context → String → Action W (ℕ × TripResponse)
  decline c trip_id = do
    (drivers, driver) ← require_driver c
    raise_if (is_empty trip_id) (response 400 (message "trip id required"))
    assignment ← or_refuse driver_refusal (decline_trip drivers trip_id driver.id)
    shown_trip trip_id

  unfoldable pub driver_update_trip_status :
      Context → String → Result String → Action W (ℕ × TripResponse)
  driver_update_trip_status c trip_id body = do
    (drivers, driver) ← require_driver c
    raise_if (is_empty trip_id) (response 400 (message "trip id required"))
    text ← bound body
    let status = to_status (to_lower (trim_space text))
    trip ← or_refuse driver_refusal (Dispatch.update_trip_status drivers trip_id driver.id status)
    h.hubs.broadcast_status trip_id status
    location ← attempt (latest_location h.service trip_id)
    pure (200, (trip, location_or_none location))
