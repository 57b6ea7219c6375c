-- ===== src/Driver/Tests.antt =====
-- Runs of the dispatch model on concrete inputs, and the theorems at inputs that meet their
-- hypotheses.
use uitgo_monorepo.Base.{
  String, ◌≡◌, refl, true, Option, none, some, List, [], ◌∷◌, ◌↔◌, ◌+◌, ◌≤◌, length,
}
use uitgo_monorepo.Base.Action.Ensures.{Ensures}
use uitgo_monorepo.Trip.{TripStatus, requested, accepted, arriving, in_ride, completed}
use uitgo_monorepo.Trip.Store.{TripModel}
use uitgo_monorepo.Trip.Repository
use uitgo_monorepo.Driver.{TripAssignmentStatus}
use uitgo_monorepo.Driver.Assignments.{TripAssignmentModel}
use uitgo_monorepo.Driver.Assignments
use uitgo_monorepo.Driver.Memory.{
  Memory, tables, runtime, trip_store, assignment_store, drivers, service, trip_of, assignment_of,
  update_trip, update_assignment,
}
use uitgo_monorepo.Driver.Memory.Laws.{dispatch, database, apart}
use uitgo_monorepo.Base.Int.{pos}
use uitgo_monorepo.Base.Action.{pure}
use uitgo_monorepo.Driver.{DriverLocation, DriverLocationIndex}
use uitgo_monorepo.Driver.Service.Dispatch.Search.{search_nearby_drivers}
use uitgo_monorepo.Driver.Service.Dispatch.Shown.{Searched, search_nearby_drivers-IsShown}
use uitgo_monorepo.Driver.Service.Dispatch.{
  assign_trip, accept_trip, decline_trip, release, update_trip_status, allowed_driver_transition,
}
use uitgo_monorepo.Driver.Service.Dispatch.Laws.{IsDispatch, IsFresh, HalfAssigned, driver_value}
use uitgo_monorepo.Driver.Service.Dispatch.Lifecycle.{
  ◌⟶◌, Allowed, stage, allowed_driver_transition_iff, Allowed-run_short,
}
use uitgo_monorepo.Driver.Service.Dispatch.Confined.{Confined}
use uitgo_monorepo.Driver.Service.Dispatch.Assigning.{Given, IsFree, assign_trip-Given}
use uitgo_monorepo.Driver.Service.Dispatch.Answering.{Accepted, accept_trip-Accepted}
use uitgo_monorepo.Driver.Service.Dispatch.Declining.{Declined, decline_trip-Declined}
use uitgo_monorepo.Driver.Service.Dispatch.Progress.{Moved}
use uitgo_monorepo.Driver.Service.Dispatch.Moving.{update_trip_status-Moved}
use uitgo_monorepo.Driver.Service.Dispatch.Database.{view}
use uitgo_monorepo.Driver.Service.Dispatch.Wiring.{wired, wired-IsDispatch}

abbrev ride : TripStatus → Option String → TripModel
ride status driver_id = record {
  id = "t";
  rider_id = "r";
  driver_id = driver_id;
  service_id = "uit-go";
  origin_text = "A";
  dest_text = "B";
  origin_lat = none;
  origin_lng = none;
  dest_lat = none;
  dest_lng = none;
  status = status;
  created_at = 1;
  updated_at = 1;
}

abbrev held : String → TripAssignmentStatus → TripAssignmentModel
held driver_id status = record {
  id = "a";
  trip_id = "t";
  driver_id = driver_id;
  status = status;
  responded_at = none;
  created_at = 1;
  updated_at = 1;
}

abbrev waiting : Memory
waiting = record {
  trips = ride requested none ∷ [];
  assignments = [];
  onlines = "d" ∷ [];
  clock = 7;
}

-- The driver "d" has accepted the trip.
abbrev under_way : Memory
under_way = record {
  trips = ride accepted (some "d") ∷ [];
  assignments = held "d" TripAssignmentStatus.accepted ∷ [];
  onlines = "d" ∷ [];
  clock = 7;
}

abbrev driver_of : Option TripModel → Option String
driver_of none = none
driver_of (some m) = m.driver_id

-- A driver who does not hold the assignment takes the trip from the one who does: the trip has no
-- driver any more, and the assignment of the other driver is still accepted.
stranger_declines :
    (driver_of (tables.trip (decline_trip service "t" "x" under_way).1 "t") ≡ none)
    × (tables.assignment (decline_trip service "t" "x" under_way).1 "t"
        ≡ some (held "d" TripAssignmentStatus.accepted))
unfolding decline_trip release Repository.trip_sync_repository Repository.set_trip_driver
    Repository.driver_column Repository.updated_row Assignments.trip_assignment_repository
    Assignments.update_status Assignments.reread trip_store assignment_store trip_of assignment_of
    update_trip update_assignment
stranger_declines = (refl, refl)

wired-IsDispatch_example :
    IsDispatch (view runtime tables) (wired runtime trip_store assignment_store drivers none none)
wired-IsDispatch_example = wired-IsDispatch database apart

assign_trip-Given_example :
    Ensures
      (λ a w'.
        IsFresh (view runtime tables) "t" "d" a
        × Given (view runtime tables) "t" (driver_value (some "d")) a waiting w'
        × (tables.online waiting "d" ≡ true)
        × IsFree (view runtime tables) "t" "d" waiting)
      (λ e w'. HalfAssigned (view runtime tables) "t" "d" waiting w')
      (assign_trip service "t" "d" waiting)
assign_trip-Given_example = assign_trip-Given dispatch "t" "d" waiting

accept_trip-Accepted_example :
    Ensures
      (λ a w'. Accepted (view runtime tables) "t" "d" (driver_value (some "d")) a waiting w')
      (λ e w'. Confined (view runtime tables) "t" waiting w')
      (accept_trip service "t" "d" waiting)
accept_trip-Accepted_example = accept_trip-Accepted dispatch "t" "d" waiting

decline_trip-Declined_example :
    Ensures
      (λ o w'. Declined (view runtime tables) "t" "d" under_way w' o)
      (λ e w'. Confined (view runtime tables) "t" under_way w')
      (decline_trip service "t" "d" under_way)
decline_trip-Declined_example = decline_trip-Declined dispatch "t" "d" under_way

update_trip_status-Moved_example :
    Ensures
      (λ t w'. Moved (view runtime tables) "t" "d" arriving t under_way w')
      (λ e w'. Confined (view runtime tables) "t" under_way w')
      (update_trip_status service "t" "d" arriving under_way)
update_trip_status-Moved_example = update_trip_status-Moved dispatch "t" "d" arriving under_way

allowed_driver_transition_iff_example :
    (allowed_driver_transition accepted arriving ≡ true) ↔ (accepted ⟶ arriving)
allowed_driver_transition_iff_example = allowed_driver_transition_iff accepted arriving

abbrev whole_ride : List TripStatus
whole_ride = arriving ∷ in_ride ∷ completed ∷ []

whole_ride-Allowed : Allowed accepted whole_ride
unfolding allowed_driver_transition
whole_ride-Allowed = (refl, (refl, (refl, tt)))

Allowed-run_short_example : stage accepted + length whole_ride ≤ 4
Allowed-run_short_example = Allowed-run_short accepted whole_ride whole_ride-Allowed

abbrev place : String → DriverLocation
place id = record {
  id = "l";
  driver_id = id;
  latitude = 0;
  longitude = 0;
  accuracy = none;
  heading = none;
  speed = none;
  recorded_at = 0;
  distance_meters = none;
}

-- An index with the driver "d" and an entry of nobody.
abbrev index : DriverLocationIndex Memory
index = record {
  upsert = λ id l. pure tt;
  remove = λ id. pure tt;
  nearby = λ lat lng radius limit.
      pure (some (place "d") ∷ none ∷ some (place "") ∷ some (place "x") ∷ []);
}

search_nearby_drivers-IsShown_example :
    Ensures
      (λ ds w'.
        Searched
          (wired runtime trip_store assignment_store drivers none (some index))
          0
          0
          5
          (pos 10)
          waiting
          ds)
      (λ e w'. Unit {0})
      (search_nearby_drivers
        (wired runtime trip_store assignment_store drivers none (some index))
        0
        0
        5
        (pos 10)
        waiting)
search_nearby_drivers-IsShown_example =
    search_nearby_drivers-IsShown
      (wired runtime trip_store assignment_store drivers none (some index)) 0 0 5 (pos 10) waiting
