-- ===== src/Trip/Repository.antt =====
-- backend/internal/db/trip_repository.go, over the statements of Trip/Store.
use uitgo_monorepo.Base.{
  ℕ, String, Bool, false, ◌||◌, Option, none, some, List, map, ◌==◌, eqb, if◌then◌else◌,
}
use uitgo_monorepo.Base.Int.{ℤ, pos, leb_ℤ, ltb_ℤ}
use uitgo_monorepo.Base.Text.{is_empty}
use uitgo_monorepo.Errors.{trip_not_found}
use uitgo_monorepo.Base.Action.{Action, pure, raise, always, raise_if, checked, ◌>>=◌, ◌>>◌}
use uitgo_monorepo.Trip.{TripStatus, Trip, LocationUpdate, TripSyncRepository, TripRepository}
use uitgo_monorepo.Trip.Store.{TripModel, TripEventModel, Runtime, TripStore}

-- The literal `&domain.Trip{...}` of a row, which `GetTrip` and `ListTrips` write.
abbrev pub to_trip : TripModel → Trip
to_trip m = record {
  id = m.id;
  rider_id = m.rider_id;
  driver_id = m.driver_id;
  service_id = m.service_id;
  origin_text = m.origin_text;
  dest_text = m.dest_text;
  origin_lat = m.origin_lat;
  origin_lng = m.origin_lng;
  dest_lat = m.dest_lat;
  dest_lng = m.dest_lng;
  status = m.status;
  created_at = m.created_at;
  updated_at = m.updated_at;
}

-- The row that `CreateTrip` inserts.
abbrev pub trip_row : Trip → String → ℕ → TripModel
trip_row trip id now = record {
  id = id;
  rider_id = trip.rider_id;
  driver_id = trip.driver_id;
  service_id = trip.service_id;
  origin_text = trip.origin_text;
  dest_text = trip.dest_text;
  origin_lat = trip.origin_lat;
  origin_lng = trip.origin_lng;
  dest_lat = trip.dest_lat;
  dest_lng = trip.dest_lng;
  status = trip.status;
  created_at = now;
  updated_at = now;
}

unfoldable pub is_driven_by : Option String → String → Bool
is_driven_by none user_id = false
is_driven_by (some d) user_id = d == user_id

-- The column that the role is looked up in.
unfoldable pub is_listed : String → String → TripModel → Bool
unfolding is_driven_by
is_listed user_id role m =
    if role == "driver" then is_driven_by m.driver_id user_id else m.rider_id == user_id

module _ {W : Type 0} (r : Runtime W) (s : TripStore W) where
  -- `now` where the time is zero
  unfoldable pub time_or_now : ℕ → Action W ℕ
  time_or_now t = if eqb t 0 then always r.now else pure t

  unfoldable pub id_or_new : String → Action W String
  id_or_new id = if is_empty id then always r.new_id else checked (r.parse_id id)

  unfoldable pub create_trip : Trip → Action W Trip
  unfolding time_or_now id_or_new
  create_trip trip = do
    id ← id_or_new trip.id
    now ← time_or_now trip.created_at
    row ← s.create_trip (trip_row trip id now)
    pure (record trip { id = row.id; created_at = row.created_at; updated_at = row.updated_at })

  unfoldable pub found_trip : Option TripModel → Action W Trip
  found_trip none = raise trip_not_found
  found_trip (some m) = pure (to_trip m)

  unfoldable pub get_trip : String → Action W Trip
  unfolding found_trip
  get_trip id = do uid ← checked (r.parse_id id); found ← s.read_trip uid; found_trip found

  -- `Updates` of one row, which must be there.
  unfoldable pub updated_row : String → (TripModel → TripModel) → Action W (Unit {0})
  updated_row uid f = do changed ← s.update_trip uid f; raise_if (eqb changed 0) trip_not_found

  unfoldable pub update_trip_status : String → TripStatus → Action W (Unit {0})
  update_trip_status id status = do
    uid ← checked (r.parse_id id)
    now ← always r.now
    updated_row uid (λ m. record m { status = status; updated_at = now })

  -- `driverValue`: NULL for nil or an empty text; the text must be an id and is stored as it is.
  unfoldable pub driver_column : Option String → Action W (Option String)
  driver_column none = pure none
  driver_column (some d) =
      if is_empty d then pure none else (do uid ← checked (r.parse_id d); pure (some d))

  unfoldable pub set_trip_driver : String → Option String → Action W (Unit {0})
  set_trip_driver id driver_id = do
    uid ← checked (r.parse_id id)
    driver ← driver_column driver_id
    now ← always r.now
    updated_row uid (λ m. record m { driver_id = driver; updated_at = now })

  unfoldable pub save_location : String → LocationUpdate → Action W (Unit {0})
  unfolding time_or_now
  save_location trip_id update = do
    uid ← checked (r.parse_id trip_id)
    at ← time_or_now update.timestamp
    payload ← checked (s.encode (record update { timestamp = at }))
    id ← always r.new_id
    s.create_event
        (record { id = id; trip_id = uid; kind = "location"; payload = payload; created_at = at })

  unfoldable pub shown_event : Option TripEventModel → Action W (Option LocationUpdate)
  shown_event none = pure none
  shown_event (some event) = do
    update ← checked (s.decode event.payload)
    pure (
        some (record update {
          timestamp = if eqb update.timestamp 0 then event.created_at else update.timestamp;
        }))

  unfoldable pub get_latest_location : String → Action W (Option LocationUpdate)
  unfolding shown_event
  get_latest_location trip_id = do
    uid ← checked (r.parse_id trip_id)
    event ← s.read_event uid "location"
    shown_event event

  unfoldable pub list_trips : String → String → ℤ → ℤ → Action W (List Trip × ℤ)
  list_trips user_id role limit offset = do
    total ← s.read_count (is_listed user_id role)
    rows ←
        s.read_trips (is_listed user_id role)
          (if leb_ℤ limit (pos 0) || ltb_ℤ (pos 100) limit then pos 20 else limit)
          (if ltb_ℤ offset (pos 0) then pos 0 else offset)
    pure (map to_trip rows, total)

  unfoldable pub purge_all : Action W (Unit {0})
  purge_all = s.transaction (s.delete_events >> s.delete_trips)

  unfoldable pub trip_sync_repository : TripSyncRepository W
  trip_sync_repository = record {
    get_trip = get_trip;
    update_trip_status = update_trip_status;
    set_trip_driver = set_trip_driver;
  }

  unfoldable pub trip_repository : TripRepository W
  trip_repository = record {
    sync = trip_sync_repository;
    create_trip = create_trip;
    save_location = save_location;
    get_latest_location = get_latest_location;
    list_trips = list_trips;
    purge_all = purge_all;
  }
