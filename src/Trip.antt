-- ===== src/Trip.antt =====
-- Trips and the interfaces of their repositories (backend/internal/domain/model.go, repo.go).
-- A `float64` is its bit pattern: the program stores and copies coordinates.
pub mod Store
pub mod Repository
pub mod Listing
pub mod Location
pub mod Memory
mod Tests
pub mod Service
use uitgo_monorepo.Base.{ℕ, String, Bool, true, false, Option, List, ◌==◌, if◌then◌else◌}
use uitgo_monorepo.Base.Int.{ℤ}
use uitgo_monorepo.Base.Action.{Action}

abbrev pub Float64 : Type 0
Float64 = ℕ

-- The status is a text; `other` is any text but the six constants.
pub data TripStatus : Type 0 where
  requested accepted arriving in_ride completed cancelled : TripStatus
  other : String → TripStatus

-- `string(status)`
unfoldable pub status_text : TripStatus → String
status_text requested = "requested"
status_text accepted = "accepted"
status_text arriving = "arriving"
status_text in_ride = "in_ride"
status_text completed = "completed"
status_text cancelled = "cancelled"
status_text (other s) = s

pub record Trip : Type 0 where
  pub id : String
  pub rider_id : String
  pub driver_id : Option String
  pub service_id : String
  pub origin_text : String
  pub dest_text : String
  pub origin_lat : Option Float64
  pub origin_lng : Option Float64
  pub dest_lat : Option Float64
  pub dest_lng : Option Float64
  pub status : TripStatus
  pub created_at : ℕ
  pub updated_at : ℕ

pub record LocationUpdate : Type 0 where
  pub latitude : Float64
  pub longitude : Float64
  pub timestamp : ℕ

-- `TripSyncRepository`, the part that the driver service uses.
pub record TripSyncRepository (W : Type 0) : Type 0 where
  pub get_trip : String → Action W Trip
  pub update_trip_status : String → TripStatus → Action W (Unit {0})
  pub set_trip_driver : String → Option String → Action W (Unit {0})

-- `CreateTrip` is given a pointer and writes the id and the times through it.
pub record TripRepository (W : Type 0) : Type 0 where
  pub sync : TripSyncRepository W
  pub create_trip : Trip → Action W Trip
  pub save_location : String → LocationUpdate → Action W (Unit {0})
  pub get_latest_location : String → Action W (Option LocationUpdate)
  pub list_trips : String → String → ℤ → ℤ → Action W (List Trip × ℤ)
  pub purge_all : Action W (Unit {0})
