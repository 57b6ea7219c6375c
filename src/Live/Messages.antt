-- ===== src/Live/Messages.antt =====
-- Joining the hub of a trip and reading the messages of a client, in
-- backend/internal/http/handlers/ws.go.
pub mod Confined
mod Tests
use uitgo_monorepo.Base.{
  ℕ, String, Bool, true, false, not, ◌==◌, ◌||◌, ◌++◌, Option, none, some, List, [], ◌∷◌,
  if◌then◌else◌,
}
use uitgo_monorepo.Base.Text.{is_empty, to_lower}
use uitgo_monorepo.Errors.{Error, message, response}
use uitgo_monorepo.Base.Action.{
  Result, ok, err, Action, pure, always, attempt, raise_if, ◌>>=◌, ◌>>◌,
}
use uitgo_monorepo.Http.{Context, or_refuse}
use uitgo_monorepo.Http.Trips.Data.{to_status}
use uitgo_monorepo.Trip.{Float64, TripStatus, Trip, LocationUpdate}
use uitgo_monorepo.Trip.Service.{
  TripService, fetch, update_status, record_location, latest_location,
}
use uitgo_monorepo.Driver.{DriverLocation}

-- `inboundMessage`; a field that is missing is the zero value
pub record InboundMessage : Type 0 where
  pub kind : String
  pub status : String
  pub lat : Float64
  pub lng : Float64

-- `outboundMessage` by its type, with the trip and the time.
pub data OutboundMessage : Type 0 where
  status_message : String → TripStatus → ℕ → OutboundMessage
  location_message : String → LocationUpdate → ℕ → OutboundMessage

-- What `readPump` and `HandleWebsocket` use of a `*Client`, of its `*Hub` and of the connection.
-- `broadcast` is `broadcastJSON` of the hub of the client's trip; `upgrade` and `join` stand for the
-- upgrade of the connection and for `hub.register <- client`.
pub record Session : Type 0 where
  pub role : String
  pub user_id : String
  pub trip_id : String
  pub driver_id : String

pub record SocketHub (W : Type 0) : Type 0 where
  pub driver_locations : Option (String → DriverLocation → Action W (Unit {0}))
  pub broadcast : OutboundMessage → Action W (Unit {0})
  pub upgrade : Action W (Unit {0})
  pub join : Action W (Unit {0})
  pub now : W → ℕ × W

abbrev pub driver_location : String → LocationUpdate → DriverLocation
driver_location driver_id update = record {
  id = "";
  driver_id = driver_id;
  latitude = update.latitude;
  longitude = update.longitude;
  accuracy = none;
  heading = none;
  speed = none;
  recorded_at = update.timestamp;
  distance_meters = none;
}

unfoldable pub has_driver : Option String → Bool
has_driver none = false
has_driver (some d) = not (is_empty d)

unfoldable pub can_access_trip_ws : Trip → String → String → Bool
can_access_trip_ws trip user_id role =
    if to_lower role == "admin"
    then true
    else if trip.rider_id == user_id
    then true
    else if has_driver trip.driver_id
    then to_lower role == "driver"
    else false

-- The driver of a trip that was read, or "".
abbrev pub driver_or_empty : Option String → String
driver_or_empty none = ""
driver_or_empty (some d) = d

abbrev pub fetched_driver : Result Trip → String
fetched_driver (ok trip) = driver_or_empty trip.driver_id
fetched_driver (err e) = ""

-- The end of `persistDriverLocation`.
unfoldable pub save_driver_location :
    {W : Type 0}
    → (String → DriverLocation → Action W (Unit {0}))
    → String
    → LocationUpdate
    → Action W (Unit {0})
save_driver_location writer driver_id update =
    if is_empty driver_id
    then pure tt
    else (do saved ← attempt (writer driver_id (driver_location driver_id update)); pure tt)

module _ {W : Type 0} (h : SocketHub W) (s : TripService W) where
  unfoldable pub resolve_driver_id : Session → Action W String
  resolve_driver_id c =
      if not (is_empty c.driver_id)
      then pure c.driver_id
      else (do trip ← attempt (fetch s c.trip_id); pure (fetched_driver trip))

  -- The client is returned, since its driver is remembered.
  unfoldable pub persist_with :
      Option (String → DriverLocation → Action W (Unit {0}))
      → Session
      → LocationUpdate
      → Action W Session
  persist_with none c update = pure c
  persist_with (some writer) c update = do
    driver_id ← resolve_driver_id c
    save_driver_location writer driver_id update
    pure (record c { driver_id = driver_id })

  -- After the location of the trip was recorded, or could not be.
  unfoldable pub located : Session → LocationUpdate → Result (Unit {0}) → Action W Session
  located c update (err e) = pure c
  located c update (ok u) = do
    c' ← persist_with h.driver_locations c update
    h.broadcast (location_message c.trip_id update update.timestamp)
    pure c'

  -- After the status of the trip was updated, or could not be.
  unfoldable pub restated : Session → TripStatus → Result (Unit {0}) → Action W Session
  restated c status (err e) = pure c
  restated c status (ok u) = do
    now ← always h.now
    h.broadcast (status_message c.trip_id status now)
    pure c

  -- The `switch` on the type of a message of a driver.
  unfoldable pub handled : Session → InboundMessage → Action W Session
  handled c m =
      if m.kind == "location"
      then (do
        now ← always h.now
        let update : LocationUpdate = record {
          latitude = m.lat;
          longitude = m.lng;
          timestamp = now;
        }
        saved ← attempt (record_location s c.trip_id update)
        located c update saved)
      else if m.kind == "status"
      then (if is_empty m.status then pure c else (do
        updated ← attempt (update_status s c.trip_id (to_status m.status))
        restated c (to_status m.status) updated))
      else pure c

  -- One message: that of a client which is no driver is dropped, as is one that does not decode.
  unfoldable pub received : Session → Result InboundMessage → Action W Session
  received c (err e) = pure c
  received c (ok m) = if c.role == "driver" then handled c m else pure c

  -- The loop of `readPump` over the messages that arrive until reading fails.
  unfoldable pub read_pump : List (Result InboundMessage) → Session → Action W Session
  read_pump [] c = pure c
  read_pump (m ∷ ms) c = do c' ← received c m; read_pump ms c'

  -- What the latest location adds to the snapshot.
  location_snapshot : String → Result (Option LocationUpdate) → List OutboundMessage
  location_snapshot trip_id (err e) = []
  location_snapshot trip_id (ok none) = []
  location_snapshot trip_id (ok (some l)) = location_message trip_id l l.timestamp ∷ []

  -- The messages that a client which is no driver is sent first.
  unfoldable pub snapshot : Session → Trip → Action W (List OutboundMessage)
  unfolding location_snapshot
  snapshot c trip = if c.role == "driver" then pure [] else (do
    now ← always h.now
    location ← attempt (latest_location s c.trip_id)
    pure (status_message c.trip_id trip.status now ∷ location_snapshot c.trip_id location))

  -- The handler up to `client.readPump`: the client and its first messages.
  unfoldable pub handle_websocket : Context → String → Action W (Session × List OutboundMessage)
  handle_websocket ctx trip_id = do
    raise_if (is_empty ctx.user_id) (response 401 (message "authentication required"))
    trip ← or_refuse (λ e. response 404 (message "trip not found")) (fetch s trip_id)
    raise_if (not (can_access_trip_ws trip ctx.user_id ctx.role))
        (response 403 (message "access denied"))
    h.upgrade
    h.join
    let c : Session = record {
      role = ctx.role;
      user_id = ctx.user_id;
      trip_id = trip_id;
      driver_id = driver_or_empty trip.driver_id;
    }
    first ← snapshot c trip
    pure (c, first)
