-- ===== src/Driver.antt =====
-- Drivers, vehicles, assignments and the interfaces of their repositories
-- (backend/internal/domain/driver.go).
pub mod Assignments
pub mod Profiles
pub mod Memory
mod Tests
pub mod Service
use uitgo_monorepo.Base.{ℕ, String, Option, List}
use uitgo_monorepo.Base.Int.{ℤ}
use uitgo_monorepo.Base.Action.{Action}
use uitgo_monorepo.Trip.{Float64, Trip, TripStatus}

pub data DriverAvailability : Type 0 where
  offline online : DriverAvailability
  other : String → DriverAvailability

pub record Vehicle : Type 0 where
  pub id : String
  pub driver_id : String
  pub make : String
  pub model : String
  pub color : String
  pub year : ℤ
  pub plate_number : String
  pub created_at : ℕ
  pub updated_at : ℕ

pub record DriverStatus : Type 0 where
  pub driver_id : String
  pub availability : DriverAvailability
  pub updated_at : ℕ

pub record DriverLocation : Type 0 where
  pub id : String
  pub driver_id : String
  pub latitude : Float64
  pub longitude : Float64
  pub accuracy : Option Float64
  pub heading : Option Float64
  pub speed : Option Float64
  pub recorded_at : ℕ
  pub distance_meters : Option Float64

pub record Driver : Type 0 where
  pub id : String
  pub user_id : String
  pub full_name : String
  pub phone : String
  pub license_number : String
  pub avatar_url : Option String
  pub rating : Float64
  pub created_at : ℕ
  pub updated_at : ℕ
  pub vehicle : Option Vehicle
  pub status : Option DriverStatus
  pub location : Option DriverLocation

pub data TripAssignmentStatus : Type 0 where
  pending accepted declined cancelled : TripAssignmentStatus
  other : String → TripAssignmentStatus

pub record TripAssignment : Type 0 where
  pub id : String
  pub trip_id : String
  pub driver_id : String
  pub status : TripAssignmentStatus
  pub responded_at : Option ℕ
  pub created_at : ℕ
  pub updated_at : ℕ

-- A method that may return nil with no error gives an `Option`. `Create` and `RecordLocation`
-- write through their pointer: what it holds afterwards comes back.
pub record DriverRepository (W : Type 0) : Type 0 where
  pub create : Driver → Action W Driver
  pub delete_by_id : String → Action W (Unit {0})
  pub update : Driver → Action W (Unit {0})
  pub find_by_id : String → Action W Driver
  pub find_by_user_id : String → Action W Driver
  pub find_available : Action W (Option Driver)
  pub save_vehicle : Vehicle → Action W Vehicle
  pub find_vehicle : String → Action W (Option Vehicle)
  pub set_availability : String → DriverAvailability → Action W DriverStatus
  pub get_availability : String → Action W (Option DriverStatus)
  pub record_location : String → DriverLocation → Action W DriverLocation
  pub latest_location : String → Action W (Option DriverLocation)

pub record DriverLocationIndex (W : Type 0) : Type 0 where
  pub upsert : String → DriverLocation → Action W (Unit {0})
  pub remove : String → Action W (Unit {0})
  pub nearby : Float64 → Float64 → Float64 → ℤ → Action W (List (Option DriverLocation))

pub record TripAssignmentRepository (W : Type 0) : Type 0 where
  pub assign : String → String → Action W TripAssignment
  pub update_status : String → String → TripAssignmentStatus → Option ℕ → Action W TripAssignment
  pub get_by_trip_id : String → Action W (Option TripAssignment)
  pub find_active_by_driver : String → Action W (Option TripAssignment)
  pub clear : String → Action W (Unit {0})
  pub clear_all : Action W (Unit {0})

-- `TripEventNotifier` of backend/internal/domain/notification.go.
pub record TripEventNotifier (W : Type 0) : Type 0 where
  pub notify_rider_status_change : Trip → TripStatus → Action W (Unit {0})
  pub notify_driver_trip_assigned : Driver → Trip → Action W (Unit {0})
