-- ===== src/Driver/Service/Dispatch/Wiring.antt =====
-- The driver service wired with the repositories of the database, as `NewDriverService` of
-- backend/internal/domain/driver_service.go is called: it meets the laws of Laws.
use uitgo_monorepo.Base.{String, ◌≡◌, Option, some}
use uitgo_monorepo.Trip.{Trip, TripStatus}
use uitgo_monorepo.Trip.Store.{Runtime, TripStore}
use uitgo_monorepo.Trip.Repository.{trip_sync_repository}
use uitgo_monorepo.Driver.{Driver, DriverRepository, DriverLocationIndex, TripEventNotifier}
use uitgo_monorepo.Driver.Assignments.{TripAssignmentStore, trip_assignment_repository}
use uitgo_monorepo.Driver.Service.{DriverService, has_online}
use uitgo_monorepo.Driver.Service.Dispatch.Laws.{Reads, IsDispatch}
use uitgo_monorepo.Driver.Service.Dispatch.Database.{DispatchTables, view, IsDatabase}
use uitgo_monorepo.Driver.Service.Dispatch.Repositories.{
  Untouched-Same, get_trip-Reads, update_trip_status-TripIs, set_trip_driver-TripIs,
}
use uitgo_monorepo.Driver.Service.Dispatch.AssignmentRows.{
  get_by_trip_id-Reads, find_active_by_driver-Reads, assign-IsFresh, update_status-IsAnswered,
}

abbrev pub wired :
    {W : Type 0}
    → Runtime W
    → TripStore W
    → TripAssignmentStore W
    → DriverRepository W
    → Option (TripEventNotifier W)
    → Option (DriverLocationIndex W)
    → DriverService W
wired r s a drivers notifier locator = record {
  drivers = drivers;
  assignments = trip_assignment_repository r a;
  trips = trip_sync_repository r s;
  notifier = notifier;
  locator = locator;
  now = r.now;
}

-- The queries of the drivers and the notifications change no trip and no assignment.
pub record IsApart {W : Type 0} (r : Runtime W) (t : DispatchTables W)
    (drivers : DriverRepository W) (notifier : Option (TripEventNotifier W)) : Type 0 where
  pub find_by_id_law :
      (id : String) (w : W) → Reads (view r t) (λ d w. Unit {0}) w (drivers.find_by_id id)
  pub get_availability_law :
      (id : String) (w : W)
      → Reads
          (view r t)
          (λ o w. has_online o ≡ t.online w ((view r t).name id))
          w
          (drivers.get_availability id)
  pub find_available_law : (w : W) → Reads (view r t) (λ o w. Unit {0}) w drivers.find_available
  pub latest_location_law :
      (id : String) (w : W) → Reads (view r t) (λ o w. Unit {0}) w (drivers.latest_location id)
  pub rider_law :
      (n : TripEventNotifier W) (x : Trip) (st : TripStatus) (w : W)
      → notifier ≡ some n
      → Reads (view r t) (λ u w. Unit {0}) w (n.notify_rider_status_change x st)
  pub driver_law :
      (n : TripEventNotifier W) (d : Driver) (x : Trip) (w : W)
      → notifier ≡ some n
      → Reads (view r t) (λ u w. Unit {0}) w (n.notify_driver_trip_assigned d x)

module _ {W : Type 0} {t : DispatchTables W} {r : Runtime W} {s : TripStore W}
    {a : TripAssignmentStore W} {drivers : DriverRepository W}
    {notifier : Option (TripEventNotifier W)} {locator : Option (DriverLocationIndex W)} where
  -- The service over the repositories of the database is a dispatch in the sense of the specification,
  -- where the database behaves as documented and the queries of the drivers and the notifications
  -- write neither trips nor assignments.
  pub wired-IsDispatch :
      IsDatabase t r s a
      → IsApart r t drivers notifier
      → IsDispatch (view r t) (wired r s a drivers notifier locator)
  unfolding trip_sync_repository trip_assignment_repository
  wired-IsDispatch laws apart = record {
    get_trip_law = get_trip-Reads laws;
    get_by_trip_id_law = get_by_trip_id-Reads laws;
    find_active_law = find_active_by_driver-Reads laws;
    active_law = laws.active_law;
    find_by_id_law = apart.find_by_id_law;
    get_availability_law = apart.get_availability_law;
    find_available_law = apart.find_available_law;
    latest_location_law = apart.latest_location_law;
    now_law = λ w. Untouched-Same t r (laws.now_law w);
    rider_law = apart.rider_law;
    driver_law = apart.driver_law;
    set_trip_driver_law = set_trip_driver-TripIs laws;
    update_trip_status_law = update_trip_status-TripIs laws;
    assign_law = assign-IsFresh laws;
    update_status_law = update_status-IsAnswered laws;
  }
