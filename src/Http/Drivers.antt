-- ===== src/Http/Drivers.antt =====
-- The handlers of drivers in backend/internal/http/handlers/drivers.go.
pub mod Own
mod Tests
pub mod Data
use uitgo_monorepo.Base.{
  ℕ, String, ◌^◌, Bool, true, false, not, ◌==◌, ◌||◌, ◌&&◌, Option, none, some, List, map, eqb, leb,
  if◌then◌else◌,
}
use uitgo_monorepo.Base.Int.{ℤ, pos, leb_ℤ, ltb_ℤ}
use uitgo_monorepo.Base.Text.{is_empty, trim_space, to_lower, contains}
use uitgo_monorepo.Base.Numbers.{atoi}
use uitgo_monorepo.Errors.{Error, message, response, driver_already_exists, driver_not_found}
use uitgo_monorepo.Base.Action.{Result, ok, err, Action, pure, raise_if, ◌>>=◌, ◌>>◌}
use uitgo_monorepo.Http.{Context, refuse, or_refuse, bound}
use uitgo_monorepo.Trip.{Float64}
use uitgo_monorepo.Driver.{
  DriverAvailability, online, offline, Vehicle, DriverStatus, DriverLocation, Driver,
}
use uitgo_monorepo.Driver.Service.{
  DriverService, DriverRegistrationInput, DriverProfileUpdate, register, me, update_profile,
  update_availability,
}
use uitgo_monorepo.Driver.Service.Dispatch.Search.{search_nearby_drivers}
use uitgo_monorepo.Http.Drivers.Data.{
  DriverHandler, DriverVehiclePayload, CreateDriverRequest, UpdateDriverRequest, VehicleResponse,
  DriverStatusResponse, DriverLocationResponse, DriverResponse, SearchQuery, payload_to_vehicle,
  shown_vehicle, is_not_positive, positive_or, limited_or, parse_int_default, default_radius,
  not_found_or_failed, to_availability,
}

module _ {W : Type 0} (h : DriverHandler W) where
  abbrev shown_status : Option DriverStatus → Option DriverStatusResponse
  shown_status none = none
  shown_status (some st) =
      some (record { availability = st.availability; updated_at = h.rfc3339 st.updated_at })

  abbrev shown_location : Option DriverLocation → Option DriverLocationResponse
  shown_location none = none
  shown_location (some l) = some (record {
    latitude = l.latitude;
    longitude = l.longitude;
    recorded_at = h.rfc3339 l.recorded_at;
    distance_meters = l.distance_meters;
  })

  abbrev pub to_driver_response : Driver → DriverResponse
  to_driver_response d = record {
    id = d.id;
    user_id = d.user_id;
    full_name = d.full_name;
    phone = d.phone;
    license_number = d.license_number;
    avatar_url = d.avatar_url;
    rating = d.rating;
    vehicle = shown_vehicle d.vehicle;
    status = shown_status d.status;
    location = shown_location d.location;
    created_at = h.rfc3339 d.created_at;
    updated_at = h.rfc3339 d.updated_at;
  }

  unfoldable pub not_registered : Error → Error
  not_registered driver_already_exists = response 409 driver_already_exists
  not_registered e =
      response (if contains (h.error_text e) "full name required" then 400 else 500) e

  unfoldable pub register_driver :
      Context → Result CreateDriverRequest → Action W (ℕ × DriverResponse)
  register_driver c body = do
    raise_if (is_empty c.user_id) (response 401 (message "missing user context"))
    req ← bound body
    let input : DriverRegistrationInput = record {
      full_name = req.full_name;
      phone = req.phone;
      license_number = req.license_number;
      avatar_url = req.avatar_url;
      vehicle = payload_to_vehicle req.vehicle;
    }
    driver ← or_refuse not_registered (register h.service c.user_id input)
    pure (201, to_driver_response driver)

  unfoldable pub show_me : Context → Action W (ℕ × DriverResponse)
  show_me c = do
    raise_if (is_empty c.user_id) (response 401 (message "missing user context"))
    driver ← or_refuse not_found_or_failed (me h.service c.user_id)
    pure (200, to_driver_response driver)

  unfoldable pub change_profile :
      Context → Result UpdateDriverRequest → Action W (ℕ × DriverResponse)
  change_profile c body = do
    raise_if (is_empty c.user_id) (response 401 (message "missing user context"))
    req ← bound body
    let update : DriverProfileUpdate = record {
      full_name = req.full_name;
      phone = req.phone;
      license_number = req.license_number;
      avatar_url = req.avatar_url;
      vehicle = payload_to_vehicle req.vehicle;
    }
    driver ← or_refuse not_found_or_failed (update_profile h.service c.user_id update)
    pure (200, to_driver_response driver)

  availability_set : String → Option DriverAvailability → Action W (ℕ × DriverStatusResponse)
  availability_set driver_id none = refuse 400 (message "status must be online or offline")
  availability_set driver_id (some availability) = do
    status ← or_refuse not_found_or_failed (update_availability h.service driver_id availability)
    pure (
      200,
      record { availability = status.availability; updated_at = h.rfc3339 status.updated_at },
    )

  -- The rest of `updateStatus` after the driver was found to be the caller.
  unfoldable pub status_changed : String → Result String → Action W (ℕ × DriverStatusResponse)
  unfolding availability_set
  status_changed driver_id body = do
    text ← bound body
    availability_set driver_id (to_availability (to_lower (trim_space text)))

  unfoldable pub update_status :
      Context → String → Result String → Action W (ℕ × DriverStatusResponse)
  update_status c driver_id body = do
    raise_if (is_empty driver_id) (response 400 (message "driver id required"))
    raise_if (is_empty c.user_id) (response 401 (message "missing user context"))
    driver ← or_refuse not_found_or_failed (me h.service c.user_id)
    raise_if (not (driver.id == driver_id)) (response 403 (message "cannot update other driver"))
    status_changed driver_id body

  unfoldable pub parse_float_default : String → Float64 → Float64
  parse_float_default value default_value =
      let trimmed = trim_space value in
      if is_empty trimmed then default_value else positive_or (h.parse_float trimmed) default_value

  parsed_or_refuse : String → Option Float64 → Action W Float64
  parsed_or_refuse name none = refuse 400 (message name)
  parsed_or_refuse name (some f) = pure f

  unfoldable pub search_nearby : SearchQuery → Action W (ℕ × List DriverResponse)
  unfolding parsed_or_refuse
  search_nearby q = do
    raise_if (is_empty (trim_space q.lat) || is_empty (trim_space q.lng))
        (response 400 (message "lat and lng are required"))
    lat ← parsed_or_refuse "invalid lat" (h.parse_float (trim_space q.lat))
    lng ← parsed_or_refuse "invalid lng" (h.parse_float (trim_space q.lng))
    drivers ←
        or_refuse (λ e. response 500 e)
          (search_nearby_drivers h.service lat lng (parse_float_default q.radius default_radius)
            (parse_int_default q.limit (pos 10) (pos 50)))
    pure (200, map to_driver_response drivers)
