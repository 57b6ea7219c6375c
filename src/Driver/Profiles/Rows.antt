-- ===== src/Driver/Profiles/Rows.antt =====
-- The rows of backend/internal/db/driver_repository.go, the statements that it runs, and the literals
-- that it fills in.
use uitgo_monorepo.Base.{ℕ, String, Bool, ◌||◌, Option, none, some, List, eqb, if◌then◌else◌}
use uitgo_monorepo.Base.Int.{ℤ}
use uitgo_monorepo.Errors.{Error, driver_already_exists, is_duplicated_key}
use uitgo_monorepo.Base.Action.{Action}
use uitgo_monorepo.Trip.{Float64}
use uitgo_monorepo.Driver.{
  DriverAvailability, Vehicle, DriverStatus, DriverLocation, Driver, TripAssignmentStatus,
}
use uitgo_monorepo.Driver.Service.{five_stars}

-- `driverModel`, a row of `drivers` without its vehicle
pub record DriverModel : Type 0 where
  pub id : String
  pub user_id : String
  pub full_name : String
  pub phone : String
  pub license_number : String
  pub avatar_url : Option String
  pub rating : Float64
  pub created_at : ℕ
  pub updated_at : ℕ

-- `vehicleModel`, a row of `vehicles`
pub record VehicleModel : Type 0 where
  pub id : String
  pub driver_id : String
  pub make : String
  pub model : String
  pub color : String
  pub year : ℤ
  pub plate_number : String
  pub created_at : ℕ
  pub updated_at : ℕ

-- `driverStatusModel`, a row of `driver_status`
pub record DriverStatusModel : Type 0 where
  pub driver_id : String
  pub status : DriverAvailability
  pub updated_at : ℕ

-- `driverLocationModel`, a row of `driver_locations`
pub record DriverLocationModel : Type 0 where
  pub id : String
  pub driver_id : String
  pub latitude : Float64
  pub longitude : Float64
  pub accuracy : Option Float64
  pub heading : Option Float64
  pub speed : Option Float64
  pub recorded_at : ℕ

-- `none` of a `First` or a `Take` is `gorm.ErrRecordNotFound`; a deletion and an update give the number
-- of rows that they changed. A driver is read with its vehicle. `first_available` gives the id of the
-- driver of a status that has no assignment in one of the statuses, whose status is the oldest.
-- `is_unique_violation` is the test for the code 23505 of an error of the database.
pub record DriverStore (W : Type 0) : Type 0 where
  pub is_unique_violation : Error → Bool
  pub create_driver : DriverModel → Action W DriverModel
  pub first_driver : String → Action W (Option (DriverModel × Option VehicleModel))
  pub first_driver_of : String → Action W (Option (DriverModel × Option VehicleModel))
  pub delete_driver : String → Action W ℕ
  pub update_driver : String → (DriverModel → DriverModel) → Action W ℕ
  pub first_available : DriverAvailability → List TripAssignmentStatus → Action W (Option String)
  pub first_vehicle : String → Action W (Option VehicleModel)
  pub create_vehicle : VehicleModel → Action W VehicleModel
  pub update_vehicle : String → (VehicleModel → VehicleModel) → Action W ℕ
  pub upsert_status : DriverStatusModel → Action W (Unit {0})
  pub first_status : String → Action W (Option DriverStatusModel)
  pub create_location : DriverLocationModel → Action W (Unit {0})
  pub last_location : String → Action W (Option DriverLocationModel)

abbrev pub to_vehicle : VehicleModel → Vehicle
to_vehicle m = record {
  id = m.id;
  driver_id = m.driver_id;
  make = m.make;
  model = m.model;
  color = m.color;
  year = m.year;
  plate_number = m.plate_number;
  created_at = m.created_at;
  updated_at = m.updated_at;
}

abbrev pub to_vehicles : Option VehicleModel → Option Vehicle
to_vehicles none = none
to_vehicles (some m) = some (to_vehicle m)

abbrev pub to_driver : DriverModel → Option VehicleModel → Driver
to_driver m vehicle = record {
  id = m.id;
  user_id = m.user_id;
  full_name = m.full_name;
  phone = m.phone;
  license_number = m.license_number;
  avatar_url = m.avatar_url;
  rating = m.rating;
  created_at = m.created_at;
  updated_at = m.updated_at;
  vehicle = to_vehicles vehicle;
  status = none;
  location = none;
}

abbrev pub to_driver_status : DriverStatusModel → String → DriverStatus
to_driver_status m driver_id = record {
  driver_id = driver_id;
  availability = m.status;
  updated_at = m.updated_at;
}

abbrev pub to_driver_location : DriverLocationModel → DriverLocation
to_driver_location m = record {
  id = m.id;
  driver_id = m.driver_id;
  latitude = m.latitude;
  longitude = m.longitude;
  accuracy = m.accuracy;
  heading = m.heading;
  speed = m.speed;
  recorded_at = m.recorded_at;
  distance_meters = none;
}

-- The bit pattern is that of a zero of either sign.
unfoldable pub is_zero : Float64 → Bool
is_zero x = eqb x 0 || eqb x 0x8000000000000000

abbrev pub driver_row : Driver → String → String → ℕ → DriverModel
driver_row driver id user_id now = record {
  id = id;
  user_id = user_id;
  full_name = driver.full_name;
  phone = driver.phone;
  license_number = driver.license_number;
  avatar_url = driver.avatar_url;
  rating = if is_zero driver.rating then five_stars else driver.rating;
  created_at = now;
  updated_at = now;
}

abbrev pub vehicle_row : Vehicle → String → String → ℕ → VehicleModel
vehicle_row v id driver_id now = record {
  id = id;
  driver_id = driver_id;
  make = v.make;
  model = v.model;
  color = v.color;
  year = v.year;
  plate_number = v.plate_number;
  created_at = now;
  updated_at = now;
}

abbrev pub location_row : DriverLocation → String → String → ℕ → DriverLocationModel
location_row l id driver_id at = record {
  id = id;
  driver_id = driver_id;
  latitude = l.latitude;
  longitude = l.longitude;
  accuracy = l.accuracy;
  heading = l.heading;
  speed = l.speed;
  recorded_at = at;
}

abbrev pub edited : Vehicle → ℕ → VehicleModel → VehicleModel
edited v now m = record m {
  make = v.make;
  model = v.model;
  color = v.color;
  year = v.year;
  plate_number = v.plate_number;
  updated_at = now;
}

abbrev pub renewed : Driver → ℕ → DriverModel → DriverModel
renewed driver now m = record m {
  full_name = driver.full_name;
  phone = driver.phone;
  license_number = driver.license_number;
  avatar_url = driver.avatar_url;
  updated_at = now;
}

unfoldable pub not_created : Error → Error
not_created e = if is_duplicated_key e then driver_already_exists else e
