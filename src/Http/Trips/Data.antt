-- ===== src/Http/Trips/Data.antt =====
-- The data of the handlers in backend/internal/http/handlers/trips.go, and what they make of it without
-- a call.
use uitgo_monorepo.Base.{ℕ, String, Bool, false, ◌==◌, Option, none, List, if◌then◌else◌}
use uitgo_monorepo.Base.Int.{ℤ}
use uitgo_monorepo.Base.Text.{is_empty, to_lower}
use uitgo_monorepo.Errors.{
  Error, message, response, trip_not_found, invalid_status, driver_not_found,
  trip_assignment_not_found, driver_offline, assignment_conflict, wallet_insufficient_funds,
}
use uitgo_monorepo.Base.Action.{Result, ok, err, Action}
use uitgo_monorepo.Http.{Context}
use uitgo_monorepo.Trip.{
  Float64, TripStatus, accepted, requested, arriving, in_ride, completed, cancelled, Trip,
  LocationUpdate,
}
use uitgo_monorepo.Trip.Service.{TripService}
use uitgo_monorepo.Driver.{Driver}
use uitgo_monorepo.Driver.Service.{DriverService}
use uitgo_monorepo.Matching.{TripEvent}

-- `matching.TripDispatcher`
pub record TripDispatcher (W : Type 0) : Type 0 where
  pub publish : TripEvent → Action W (Unit {0})

-- `HubManager.BroadcastStatus`
pub record HubManager (W : Type 0) : Type 0 where
  pub broadcast_status : String → TripStatus → Action W (Unit {0})

pub record TripHandler (W : Type 0) : Type 0 where
  pub service : TripService W
  pub driver_service : Option (DriverService W)
  pub hubs : HubManager W
  pub dispatcher : Option (TripDispatcher W)

pub record CreateTripRequest : Type 0 where
  pub origin_text : String
  pub dest_text : String
  pub service_id : String
  pub origin_lat : Option Float64
  pub origin_lng : Option Float64
  pub dest_lat : Option Float64
  pub dest_lng : Option Float64

-- `tripResponse` is the trip with its last location.
abbrev pub TripResponse : Type 0
TripResponse = Trip × Option LocationUpdate

pub record TripListResponse : Type 0 where
  pub items : List TripResponse
  pub total : ℤ
  pub limit : ℤ
  pub offset : ℤ

-- The reply of an update whose trip could not be read again has the id and the status alone.
pub data UpdateResponse : Type 0 where
  whole : TripResponse → UpdateResponse
  brief : String → TripStatus → UpdateResponse

-- `domain.TripStatus(text)`
unfoldable pub to_status : String → TripStatus
to_status s =
    if s == "requested"
    then requested
    else if s == "accepted"
    then accepted
    else if s == "arriving"
    then arriving
    else if s == "in_ride"
    then in_ride
    else if s == "completed"
    then completed
    else if s == "cancelled"
    then cancelled
    else TripStatus.other s

unfoldable pub driver_error_status : Error → ℕ
driver_error_status trip_not_found = 404
driver_error_status wallet_insufficient_funds = 402
driver_error_status driver_not_found = 404
driver_error_status trip_assignment_not_found = 404
driver_error_status driver_offline = 409
driver_error_status assignment_conflict = 409
driver_error_status invalid_status = 400
driver_error_status e = 500

abbrev pub driver_refusal : Error → Error
driver_refusal e = response (driver_error_status e) e

abbrev pub not_fetched : Error → Error
not_fetched trip_not_found = response 404 (message "trip not found")
not_fetched e = response 500 e

abbrev pub not_trip_created : Error → Error
not_trip_created wallet_insufficient_funds = response 402 (message "insufficient wallet balance")
not_trip_created e = response 400 e

abbrev pub not_updated : Error → Error
not_updated trip_not_found = response 404 (message "trip not found")
not_updated invalid_status = response 400 (message "invalid status")
not_updated wallet_insufficient_funds = response 402 (message "insufficient wallet balance")
not_updated e = response 500 e

abbrev pub new_trip : String → CreateTripRequest → Trip
new_trip rider_id req = record {
  id = "";
  rider_id = rider_id;
  driver_id = none;
  service_id = req.service_id;
  origin_text = req.origin_text;
  dest_text = req.dest_text;
  origin_lat = req.origin_lat;
  origin_lng = req.origin_lng;
  dest_lat = req.dest_lat;
  dest_lng = req.dest_lng;
  status = TripStatus.other "";
  created_at = 0;
  updated_at = 0;
}

abbrev pub trip_event : Trip → TripEvent
trip_event trip = record {
  trip_id = trip.id;
  rider_id = trip.rider_id;
  service_id = trip.service_id;
  origin_text = trip.origin_text;
  dest_text = trip.dest_text;
  requested = trip.created_at;
}

-- `roleFromContext`
abbrev pub role_of : Context → String
role_of c = to_lower c.role

abbrev pub missing_user : Context → Bool
missing_user c = is_empty c.user_id

-- A location that could not be read is none.
abbrev pub location_or_none : Result (Option LocationUpdate) → Option LocationUpdate
location_or_none (ok location) = location
location_or_none (err e) = none

abbrev pub is_driver_of : Result Driver → String → Bool
is_driver_of (ok driver) driver_id = driver.id == driver_id
is_driver_of (err e) driver_id = false
