-- ===== src/Trip/Store.antt =====
-- The tables of trips and trip events as backend/internal/db/trip_repository.go sees them through
-- GORM, beside the clock, the ids and the JSON form of a location: parameters of the model, with what
-- the code relies on as laws.
use uitgo_monorepo.Base.{ℕ, String, Bool, Option, List}
use uitgo_monorepo.Base.Int.{ℤ}
use uitgo_monorepo.Base.Action.{Result, ok, err, Action}
use uitgo_monorepo.Trip.{Float64, TripStatus, LocationUpdate}

-- `tripModel`, a row of `trips`; the id is in its canonical form
pub record TripModel : Type 0 where
  pub id : String
  pub rider_id : String
  pub driver_id : Option String
  pub service_id : String
  pub origin_text : String
  pub dest_text : String
  pub origin_lat : Option Float64
  pub origin_lng : Option Float64
  pub dest_lat : Option Float64
  pub dest_lng : Option Float64
  pub status : TripStatus
  pub created_at : ℕ
  pub updated_at : ℕ

-- `tripEventModel`, a row of `trip_events`
pub record TripEventModel : Type 0 where
  pub id : String
  pub trip_id : String
  pub kind : String
  pub payload : String
  pub created_at : ℕ

-- The ids and the clock: `uuid.Parse`, which gives the canonical form of an id, `uuid.New` and
-- `time.Now`.
pub record Runtime (W : Type 0) : Type 0 where
  pub parse_id : String → Result String
  pub new_id : W → String × W
  pub now : W → ℕ × W

-- `none` of a `First` is `gorm.ErrRecordNotFound`; an update gives the number of rows that it
-- changed. The `read_` statements go to the replica where there is one.
pub record TripStore (W : Type 0) : Type 0 where
  pub encode : LocationUpdate → Result String
  pub decode : String → Result LocationUpdate
  pub create_trip : TripModel → Action W TripModel
  pub read_trip : String → Action W (Option TripModel)
  pub update_trip : String → (TripModel → TripModel) → Action W ℕ
  pub create_event : TripEventModel → Action W (Unit {0})
  pub read_event : String → String → Action W (Option TripEventModel)
  pub read_count : (TripModel → Bool) → Action W ℤ
  pub read_trips : (TripModel → Bool) → ℤ → ℤ → Action W (List TripModel)
  pub delete_events : Action W (Unit {0})
  pub delete_trips : Action W (Unit {0})
  pub transaction : Action W (Unit {0}) → Action W (Unit {0})

-- The canonical form, and "" for a text that is no id.
abbrev pub canonical : Result String → String
canonical (ok s) = s
canonical (err e) = ""
