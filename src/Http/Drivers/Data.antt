-- ===== src/Http/Drivers/Data.antt =====
-- The data of the handlers in backend/internal/http/handlers/drivers.go, and what they make of it without
-- a call.
use uitgo_monorepo.Base.{
  ℕ, String, Bool, ◌==◌, ◌||◌, ◌&&◌, Option, none, some, eqb, leb, if◌then◌else◌,
}
use uitgo_monorepo.Base.Int.{ℤ, pos, leb_ℤ, ltb_ℤ}
use uitgo_monorepo.Base.Text.{is_empty, trim_space}
use uitgo_monorepo.Base.Numbers.{atoi}
use uitgo_monorepo.Errors.{Error, response, driver_not_found}
use uitgo_monorepo.Trip.{Float64}
use uitgo_monorepo.Driver.{DriverAvailability, online, offline, Vehicle}
use uitgo_monorepo.Driver.Service.{DriverService}

-- The service, with what the handlers use of Go's library: the text of a time in RFC 3339,
-- `strconv.ParseFloat`, and the text of an error.
pub record DriverHandler (W : Type 0) : Type 0 where
  pub service : DriverService W
  pub rfc3339 : ℕ → String
  pub parse_float : String → Option Float64
  pub error_text : Error → String

pub record DriverVehiclePayload : Type 0 where
  pub make : String
  pub model : String
  pub color : String
  pub year : ℤ
  pub plate_number : String

pub record CreateDriverRequest : Type 0 where
  pub full_name : String
  pub phone : String
  pub license_number : String
  pub avatar_url : Option String
  pub vehicle : Option DriverVehiclePayload

pub record UpdateDriverRequest : Type 0 where
  pub full_name : Option String
  pub phone : Option String
  pub license_number : Option String
  pub avatar_url : Option String
  pub vehicle : Option DriverVehiclePayload

-- A vehicle is shown as it can be given.
abbrev pub VehicleResponse : Type 0
VehicleResponse = DriverVehiclePayload

pub record DriverStatusResponse : Type 0 where
  pub availability : DriverAvailability
  pub updated_at : String

pub record DriverLocationResponse : Type 0 where
  pub latitude : Float64
  pub longitude : Float64
  pub recorded_at : String
  pub distance_meters : Option Float64

pub record DriverResponse : Type 0 where
  pub id : String
  pub user_id : String
  pub full_name : String
  pub phone : String
  pub license_number : String
  pub avatar_url : Option String
  pub rating : Float64
  pub vehicle : Option VehicleResponse
  pub status : Option DriverStatusResponse
  pub location : Option DriverLocationResponse
  pub created_at : String
  pub updated_at : String

-- The query of a search; `radius` is "3000" and `limit` is "10" where there is none.
pub record SearchQuery : Type 0 where
  pub lat : String
  pub lng : String
  pub radius : String
  pub limit : String

abbrev pub payload_to_vehicle : Option DriverVehiclePayload → Option Vehicle
payload_to_vehicle none = none
payload_to_vehicle (some p) = some (record {
  id = "";
  driver_id = "";
  make = p.make;
  model = p.model;
  color = p.color;
  year = p.year;
  plate_number = p.plate_number;
  created_at = 0;
  updated_at = 0;
})

abbrev pub shown_vehicle : Option Vehicle → Option VehicleResponse
shown_vehicle none = none
shown_vehicle (some v) = some (record {
  make = v.make;
  model = v.model;
  color = v.color;
  year = v.year;
  plate_number = v.plate_number;
})

-- `f <= 0` of a bit pattern: a zero, or a negative number down to minus infinity.
unfoldable pub is_not_positive : Float64 → Bool
is_not_positive x = eqb x 0 || leb 0x8000000000000000 x && leb x 0xFFF0000000000000

unfoldable pub positive_or : Option Float64 → Float64 → Float64
positive_or none default_value = default_value
positive_or (some f) default_value = if is_not_positive f then default_value else f

-- `parseIntDefault` of a text that is not blank.
unfoldable pub limited_or : Option ℤ → ℤ → ℤ → ℤ
limited_or none default_value max = default_value
limited_or (some parsed) default_value max =
    if leb_ℤ parsed (pos 0)
    then default_value
    else if ltb_ℤ max parsed && ltb_ℤ (pos 0) max
    then max
    else parsed

unfoldable pub parse_int_default : String → ℤ → ℤ → ℤ
parse_int_default value default_value max =
    let trimmed = trim_space value in
    if is_empty trimmed then default_value else limited_or (atoi trimmed) default_value max

-- The bit pattern of 3000.0.
abbrev pub default_radius : Float64
default_radius = 0x40A7700000000000

unfoldable pub not_found_or_failed : Error → Error
not_found_or_failed driver_not_found = response 404 driver_not_found
not_found_or_failed e = response 500 e

-- The availability that a request names.
unfoldable pub to_availability : String → Option DriverAvailability
to_availability s =
    if s == "online" then some online else if s == "offline" then some offline else none
