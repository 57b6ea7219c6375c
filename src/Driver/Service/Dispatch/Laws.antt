-- ===== src/Driver/Service/Dispatch/Laws.antt =====
-- What the dispatch of backend/internal/domain/driver_service.go relies on: the laws of the
-- repositories, over the trips and the assignments that the database holds. The repositories of
-- Store meet them.
use uitgo_monorepo.Base.{
  put, ℕ, String, ◌≡◌, ◌≤◌, Bool, true, false, Option, none, some, ◌==◌, if◌then◌else◌,
}
use uitgo_monorepo.Base.Text.{is_empty}
use uitgo_monorepo.Errors.{Error, trip_assignment_not_found}
use uitgo_monorepo.Base.Action.{Action}
use uitgo_monorepo.Base.Action.Ensures.{Ensures}
use uitgo_monorepo.Trip.{TripStatus, Trip}
use uitgo_monorepo.Driver.{Driver, TripAssignmentStatus, TripAssignment, TripEventNotifier}
use uitgo_monorepo.Driver.Service.{DriverService, has_online}

-- What the database holds, by ids in their canonical form: the trip of an id, and the assignment of
-- a trip. `name` is the canonical form of an id that the program was given.
pub record DispatchView (W : Type 0) : Type 0 where
  pub name : String → String
  pub trip : W → String → Option Trip
  pub assignment : W → String → Option TripAssignment
  -- whether a driver is online, and its active assignment that changed last
  pub online : W → String → Bool
  pub active : W → String → Option TripAssignment

-- An empty id is stored as NULL.
abbrev pub driver_value : Option String → Option String
driver_value none = none
driver_value (some d) = if is_empty d then none else some d

-- An assignment is active while it is pending or accepted.
abbrev pub is_open : TripAssignmentStatus → Bool
is_open TripAssignmentStatus.pending = true
is_open TripAssignmentStatus.accepted = true
is_open _ = false

module _ {W : Type 0} (v : DispatchView W) where
  -- `a` is an active assignment of the driver `d`.
  pub record IsActive (d : String) (w : W) (a : TripAssignment) : Type 0 where
    pub held : v.assignment w a.trip_id ≡ some a
    pub driver : a.driver_id ≡ d
    pub open_yet : is_open a.status ≡ true

  -- The active assignment of the driver `d` that changed last, or `none` where it has none.
  pub data Newest (d : String) (w : W) : Option TripAssignment → Type 0 where
    idle :
        ((k : String) (a : TripAssignment)
          → v.assignment w k ≡ some a
          → a.driver_id ≡ d
          → is_open a.status ≡ false)
        → Newest d w none
    busy :
        (a : TripAssignment)
        → IsActive d w a
        → ((b : TripAssignment) → IsActive d w b → b.updated_at ≤ a.updated_at)
        → Newest d w (some a)

  -- No trip, no assignment and no driver's presence differs.
  pub record Untouched (w w' : W) : Type 0 where
    pub trips : v.trip w' ≡ v.trip w
    pub assignments : v.assignment w' ≡ v.assignment w
    pub onlines : v.online w' ≡ v.online w
    pub actives : v.active w' ≡ v.active w

  -- The trip `id` is now `t`, and nothing else differs.
  pub record TripIs (id : String) (t : Trip) (w w' : W) : Type 0 where
    pub trips : v.trip w' ≡ put (v.trip w) id t
    pub assignments : v.assignment w' ≡ v.assignment w

  -- The assignment of the trip `id` is now `a`, and nothing else differs.
  pub record AssignmentIs (id : String) (a : TripAssignment) (w w' : W) : Type 0 where
    pub trips : v.trip w' ≡ v.trip w
    pub assignments : v.assignment w' ≡ put (v.assignment w) id a

  -- The assignment that `Assign` makes.
  pub record IsFresh (trip_id driver_id : String) (a : TripAssignment) : Type 0 where
    pub trip : a.trip_id ≡ trip_id
    pub driver : a.driver_id ≡ driver_id
    pub status : a.status ≡ TripAssignmentStatus.pending
    pub responded : a.responded_at ≡ none

  -- What `UpdateStatus` makes of the assignment of a driver.
  pub record IsAnswered (driver_id : String) (st : TripAssignmentStatus) (old a : TripAssignment)
      : Type 0 where
    pub id : a.id ≡ old.id
    pub trip : a.trip_id ≡ old.trip_id
    pub driver : a.driver_id ≡ driver_id
    pub was : old.driver_id ≡ driver_id
    pub status : a.status ≡ st

  -- Nobody has the trip, or another driver has.
  pub record IsNotOf (trip_id driver_id : String) (w : W) : Type 0 where
    pub other :
        (a : TripAssignment) → v.assignment w trip_id ≡ some a → (a.driver_id == driver_id) ≡ false

  -- A failed `Assign`: its update may have been done before its last query failed.
  pub data HalfAssigned (trip_id driver_id : String) (w w' : W) : Type 0 where
    not_assigned : Untouched w w' → HalfAssigned trip_id driver_id w w'
    half_assigned :
        (a : TripAssignment)
        → IsFresh trip_id driver_id a
        → AssignmentIs trip_id a w w'
        → HalfAssigned trip_id driver_id w w'

  -- A failed `UpdateStatus`, in the same way; only where nobody else holds the assignment is the
  -- error `ErrTripAssignmentNotFound`.
  pub data HalfAnswered (trip_id driver_id : String) (e : Error) (w w' : W) : Type 0 where
    not_answered :
        Untouched w w'
        → (e ≡ trip_assignment_not_found → IsNotOf trip_id driver_id w)
        → HalfAnswered trip_id driver_id e w w'
    half_answered :
        (a : TripAssignment)
        → ¬ (e ≡ trip_assignment_not_found)
        → AssignmentIs trip_id a w w'
        → HalfAnswered trip_id driver_id e w w'

  -- A call that reads.
  abbrev pub Reads : {A : Type 0} → (A → W → Type 0) → W → Action W A → Type 0
  Reads P w m = Ensures (λ a w'. P a w × Untouched w w') (λ e w'. Untouched w w') (m w)

  pub record IsDispatch (s : DriverService W) : Type 0 where
    pub get_trip_law :
        (id : String) (w : W)
        → Reads
            (λ t w. (v.trip w (v.name id) ≡ some t) × (t.id ≡ v.name id))
            w
            (s.trips.get_trip id)
    pub get_by_trip_id_law :
        (id : String) (w : W)
        → Reads (λ o w. o ≡ v.assignment w (v.name id)) w (s.assignments.get_by_trip_id id)
    pub find_active_law :
        (driver_id : String) (w : W)
        → Reads
            (λ o w. o ≡ v.active w (v.name driver_id))
            w
            (s.assignments.find_active_by_driver driver_id)
    pub active_law : (d : String) (w : W) → Newest d w (v.active w d)
    pub find_by_id_law : (id : String) (w : W) → Reads (λ d w. Unit {0}) w (s.drivers.find_by_id id)
    pub get_availability_law :
        (id : String) (w : W)
        → Reads (λ o w. has_online o ≡ v.online w (v.name id)) w (s.drivers.get_availability id)
    pub find_available_law : (w : W) → Reads (λ o w. Unit {0}) w s.drivers.find_available
    pub latest_location_law :
        (id : String) (w : W) → Reads (λ o w. Unit {0}) w (s.drivers.latest_location id)
    pub now_law : (w : W) → Untouched w (s.now w).1
    pub rider_law :
        (n : TripEventNotifier W) (t : Trip) (st : TripStatus) (w : W)
        → s.notifier ≡ some n
        → Reads (λ u w. Unit {0}) w (n.notify_rider_status_change t st)
    pub driver_law :
        (n : TripEventNotifier W) (d : Driver) (t : Trip) (w : W)
        → s.notifier ≡ some n
        → Reads (λ u w. Unit {0}) w (n.notify_driver_trip_assigned d t)
    pub set_trip_driver_law :
        (id : String) (d : Option String) (w : W)
        → Ensures
            (λ u w'.
              (t : Trip) × (now : ℕ) × (v.trip w (v.name id) ≡ some t)
              × TripIs (v.name id) (record t { driver_id = driver_value d; updated_at = now }) w w')
            (λ e w'. Untouched w w')
            (s.trips.set_trip_driver id d w)
    pub update_trip_status_law :
        (id : String) (st : TripStatus) (w : W)
        → Ensures
            (λ u w'.
              (t : Trip) × (now : ℕ) × (v.trip w (v.name id) ≡ some t)
              × TripIs (v.name id) (record t { status = st; updated_at = now }) w w')
            (λ e w'. Untouched w w')
            (s.trips.update_trip_status id st w)
    pub assign_law :
        (trip_id driver_id : String) (w : W)
        → Ensures
            (λ a w'.
              IsFresh (v.name trip_id) (v.name driver_id) a × AssignmentIs (v.name trip_id) a w w')
            (λ e w'. HalfAssigned (v.name trip_id) (v.name driver_id) w w')
            (s.assignments.assign trip_id driver_id w)
    pub update_status_law :
        (trip_id driver_id : String) (st : TripAssignmentStatus) (at : Option ℕ) (w : W)
        → Ensures
            (λ a w'.
              (old : TripAssignment) × (v.assignment w (v.name trip_id) ≡ some old)
              × IsAnswered (v.name driver_id) st old a
              × AssignmentIs (v.name trip_id) a w w')
            (λ e w'. HalfAnswered (v.name trip_id) (v.name driver_id) e w w')
            (s.assignments.update_status trip_id driver_id st at w)
