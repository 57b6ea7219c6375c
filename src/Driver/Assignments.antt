-- ===== src/Driver/Assignments.antt =====
-- backend/internal/db/trip_assignment_repository.go. The table of assignments as the repository sees
-- it through GORM is a parameter.
use uitgo_monorepo.Base.{ℕ, String, Option, none, some, List, [], ◌∷◌, eqb}
use uitgo_monorepo.Errors.{record_not_found, trip_assignment_not_found}
use uitgo_monorepo.Base.Action.{Action, pure, raise, always, raise_if, ◌>>=◌, ◌>>◌}
use uitgo_monorepo.Driver.{TripAssignmentStatus, TripAssignment, TripAssignmentRepository}
use uitgo_monorepo.Trip.Store.{Runtime}
use uitgo_monorepo.Base.Action.{checked}

-- `tripAssignmentModel`, a row of `trip_assignments`; the ids are in their canonical form
pub record TripAssignmentModel : Type 0 where
  pub id : String
  pub trip_id : String
  pub driver_id : String
  pub status : TripAssignmentStatus
  pub responded_at : Option ℕ
  pub created_at : ℕ
  pub updated_at : ℕ

-- `none` of a `First` is `gorm.ErrRecordNotFound`; an update gives the number of rows that it
-- changed.
pub record TripAssignmentStore (W : Type 0) : Type 0 where
  pub first : String → Action W (Option TripAssignmentModel)
  pub create : TripAssignmentModel → Action W TripAssignmentModel
  -- the row of a trip
  pub update : String → (TripAssignmentModel → TripAssignmentModel) → Action W ℕ
  -- the row of a trip and a driver
  pub update_of : String → String → (TripAssignmentModel → TripAssignmentModel) → Action W ℕ
  pub first_with : String → List TripAssignmentStatus → Action W (Option TripAssignmentModel)
  pub delete : String → Action W (Unit {0})
  pub delete_all : Action W (Unit {0})

abbrev pub to_trip_assignment : TripAssignmentModel → TripAssignment
to_trip_assignment m = record {
  id = m.id;
  trip_id = m.trip_id;
  driver_id = m.driver_id;
  status = m.status;
  responded_at = m.responded_at;
  created_at = m.created_at;
  updated_at = m.updated_at;
}

abbrev pub new_assignment : String → String → String → ℕ → TripAssignmentModel
new_assignment id trip_id driver_id now = record {
  id = id;
  trip_id = trip_id;
  driver_id = driver_id;
  status = TripAssignmentStatus.pending;
  responded_at = none;
  created_at = now;
  updated_at = now;
}

-- The time of a response: the one given, NULL for a pending assignment, and else now.
abbrev pub response_time : Option ℕ → TripAssignmentStatus → ℕ → Option ℕ
response_time (some at) status now = some at
response_time none TripAssignmentStatus.pending now = none
response_time none status now = some now

abbrev pub shown : Option TripAssignmentModel → Option TripAssignment
shown none = none
shown (some m) = some (to_trip_assignment m)

module _ {W : Type 0} (r : Runtime W) (s : TripAssignmentStore W) where
  unfoldable pub found_row : Option TripAssignmentModel → Action W TripAssignment
  found_row none = raise record_not_found
  found_row (some m) = pure (to_trip_assignment m)

  -- An update that must have changed a row, which is read again.
  unfoldable pub reread : String → Action W ℕ → Action W TripAssignment
  unfolding found_row
  reread uid update = do
    changed ← update
    raise_if (eqb changed 0) trip_assignment_not_found
    row ← s.first uid
    found_row row

  -- `Assign` after its first query: a new row, or the old one given to the driver.
  unfoldable pub assign_row :
      String → String → ℕ → Option TripAssignmentModel → Action W TripAssignment
  assign_row trip_uid driver_uid now none = do
    id ← always r.new_id
    row ← s.create (new_assignment id trip_uid driver_uid now)
    pure (to_trip_assignment row)
  assign_row trip_uid driver_uid now (some existing) = reread trip_uid (
      s.update trip_uid (λ m. record m {
        driver_id = driver_uid;
        status = TripAssignmentStatus.pending;
        responded_at = none;
        updated_at = now;
      }))

  unfoldable pub assign : String → String → Action W TripAssignment
  assign trip_id driver_id = do
    trip_uid ← checked (r.parse_id trip_id)
    driver_uid ← checked (r.parse_id driver_id)
    now ← always r.now
    existing ← s.first trip_uid
    assign_row trip_uid driver_uid now existing

  unfoldable pub update_status :
      String → String → TripAssignmentStatus → Option ℕ → Action W TripAssignment
  update_status trip_id driver_id status responded_at = do
    trip_uid ← checked (r.parse_id trip_id)
    driver_uid ← checked (r.parse_id driver_id)
    now ← always r.now
    reread trip_uid (
        s.update_of trip_uid driver_uid (λ m. record m {
          status = status;
          responded_at = response_time responded_at status now;
          updated_at = now;
        }))

  unfoldable pub get_by_trip_id : String → Action W (Option TripAssignment)
  get_by_trip_id trip_id = do
    uid ← checked (r.parse_id trip_id)
    row ← s.first uid
    pure (shown row)

  unfoldable pub find_active_by_driver : String → Action W (Option TripAssignment)
  find_active_by_driver driver_id = do
    uid ← checked (r.parse_id driver_id)
    row ← s.first_with uid (TripAssignmentStatus.pending ∷ TripAssignmentStatus.accepted ∷ [])
    pure (shown row)

  unfoldable pub clear : String → Action W (Unit {0})
  clear trip_id = do uid ← checked (r.parse_id trip_id); s.delete uid

  unfoldable pub clear_all : Action W (Unit {0})
  clear_all = s.delete_all

  unfoldable pub trip_assignment_repository : TripAssignmentRepository W
  trip_assignment_repository = record {
    assign = assign;
    update_status = update_status;
    get_by_trip_id = get_by_trip_id;
    find_active_by_driver = find_active_by_driver;
    clear = clear;
    clear_all = clear_all;
  }
