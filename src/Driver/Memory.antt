-- ===== src/Driver/Memory.antt =====
-- A database in memory with the tables of the trips and the assignments: it shows that the laws of
-- the dispatch can hold.
pub mod Active
pub mod Laws
use mathlib.Core.Path.{subst}
use uitgo_monorepo.Base.{
  ℕ, String, ◌+◌, ◌≡◌, refl, sym, ap, ◌∙◌, Bool, true, false, Option, none, some, List, [], ◌∷◌,
  ◌==◌, eq_iff, arith, if◌then◌else◌, take, keep, All, length, length-take, suc, zero, Bool-cases,
  inl, inr, ◌&&◌, ◌||◌, ltb,
}
use uitgo_monorepo.Base.Int.{ℤ, pos, negsuc, pos_part, ◌≤ℤ◌}
use uitgo_monorepo.Errors.{trip_assignment_not_found}
use uitgo_monorepo.Base.Action.{ok, Action, pure}
use uitgo_monorepo.Base.Action.Ensures.{Ensures, returned, Ensures-if}
use uitgo_monorepo.Trip.{LocationUpdate}
use uitgo_monorepo.Trip.Store.{TripModel, Runtime, TripStore}
use uitgo_monorepo.Trip.Listing.{IsQueried}
use uitgo_monorepo.Driver.{online, offline, Driver, DriverStatus, DriverRepository}
use uitgo_monorepo.Driver.Assignments.{TripAssignmentModel, TripAssignmentStore}
use uitgo_monorepo.Driver.Service.{DriverService, has_online}
use uitgo_monorepo.Driver.Service.Dispatch.Laws.{IsDispatch, Untouched, is_open}
use uitgo_monorepo.Driver.Service.Dispatch.Database.{
  DispatchTables, view, Same, TripUpdated, trip_hit, trip_missed, AssignmentUpdated, hit, missed,
  IsDatabase,
}
use uitgo_monorepo.Driver.Service.Dispatch.Wiring.{wired, IsApart, wired-IsDispatch}

pub record Memory : Type 0 where
  pub trips : List TripModel
  pub assignments : List TripAssignmentModel
  pub onlines : List String
  pub clock : ℕ

unfoldable pub trip_of : List TripModel → String → Option TripModel
trip_of [] k = none
trip_of (m ∷ rows) k = if m.id == k then some m else trip_of rows k

unfoldable pub assignment_of : List TripAssignmentModel → String → Option TripAssignmentModel
assignment_of [] k = none
assignment_of (m ∷ rows) k = if m.trip_id == k then some m else assignment_of rows k

-- The row that changed last.
unfoldable pub newer :
    Option TripAssignmentModel → Option TripAssignmentModel → Option TripAssignmentModel
newer none o = o
newer (some m) none = some m
newer (some m) (some n) = if ltb m.updated_at n.updated_at then some n else some m

-- A row of the driver that is pending or accepted.
unfoldable pub open_row : String → Option TripAssignmentModel → Option TripAssignmentModel
open_row d none = none
open_row d (some m) = if (m.driver_id == d) && is_open m.status then some m else none

unfoldable pub newest_of :
    List TripAssignmentModel → List TripAssignmentModel → String → Option TripAssignmentModel
newest_of rows [] d = none
newest_of rows (m ∷ ms) d =
    let rest = newest_of rows ms d in newer (open_row d (assignment_of rows m.trip_id)) rest

-- The active row of a driver that changed last.
abbrev pub active_of : List TripAssignmentModel → String → Option TripAssignmentModel
active_of rows d = newest_of rows rows d

unfoldable pub is_in : List String → String → Bool
is_in [] x = false
is_in (y ∷ ys) x = (y == x) || is_in ys x

abbrev pub tables : DispatchTables Memory
tables = record {
  trip = λ w. trip_of w.trips;
  assignment = λ w. assignment_of w.assignments;
  online = λ w. is_in w.onlines;
  active = λ w. active_of w.assignments;
}

-- Every text is an id.
abbrev pub runtime : Runtime Memory
runtime = record {
  parse_id = λ id. ok id;
  new_id = λ w. ("6ba7b810-9dad-11d1-80b4-00c04fd430c8", w);
  now = λ w. (w.clock + 1, record w { clock = w.clock + 1 });
}

unfoldable pub update_trip : (TripModel → TripModel) → Option TripModel → Action Memory ℕ
update_trip f none w = (ok 0, w)
update_trip f (some m) w = (ok 1, record w { trips = f m ∷ w.trips })

unfoldable pub update_assignment :
    (TripAssignmentModel → Bool)
    → (TripAssignmentModel → TripAssignmentModel)
    → Option TripAssignmentModel
    → Action Memory ℕ
update_assignment good f none = pure 0
update_assignment good f (some m) =
    if good m then (λ w. (ok 1, record w { assignments = f m ∷ w.assignments })) else pure 0

abbrev pub no_location : LocationUpdate
no_location = record { latitude = 0; longitude = 0; timestamp = 0 }

unfoldable pub trip_store : TripStore Memory
trip_store = record {
  encode = λ u. ok "";
  decode = λ s. ok no_location;
  create_trip = λ m w. (ok m, record w { trips = m ∷ w.trips });
  read_trip = λ k w. (ok (trip_of w.trips k), w);
  update_trip = λ k f w. update_trip f (trip_of w.trips k) w;
  create_event = λ e w. (ok tt, w);
  read_event = λ k kind w. (ok none, w);
  read_count = λ p w. (ok (pos 0), w);
  read_trips = λ p limit offset w. (ok (take (pos_part limit) (keep p w.trips)), w);
  delete_events = λ w. (ok tt, w);
  delete_trips = λ w. (ok tt, record w { trips = [] });
  transaction = λ body. body;
}

unfoldable pub assignment_store : TripAssignmentStore Memory
assignment_store = record {
  first = λ k w. (ok (assignment_of w.assignments k), w);
  create = λ m w. (ok m, record w { assignments = m ∷ w.assignments });
  update = λ k f w. update_assignment (λ _. true) f (assignment_of w.assignments k) w;
  update_of =
      λ k d f w. update_assignment (λ m. m.driver_id == d) f (assignment_of w.assignments k) w;
  first_with = λ d sts w. (ok (active_of w.assignments d), w);
  delete = λ k w. (ok tt, w);
  delete_all = λ w. (ok tt, record w { assignments = [] });
}

abbrev driver_named : String → Driver
driver_named id = record {
  id = id;
  user_id = id;
  full_name = "";
  phone = "";
  license_number = "";
  avatar_url = none;
  rating = 0;
  created_at = 0;
  updated_at = 0;
  vehicle = none;
  status = none;
  location = none;
}

unfoldable status_in : List String → String → DriverStatus
status_in ys id = record {
  driver_id = id;
  availability = if is_in ys id then online else offline;
  updated_at = 0;
}

-- Every id is a driver's, and those in the list are online.
unfoldable pub drivers : DriverRepository Memory
unfolding status_in
drivers = record {
  create = λ d. pure d;
  delete_by_id = λ id. pure tt;
  update = λ d. pure tt;
  find_by_id = λ id. pure (driver_named id);
  find_by_user_id = λ id. pure (driver_named id);
  find_available = pure none;
  save_vehicle = λ v. pure v;
  find_vehicle = λ id. pure none;
  set_availability = λ id a. pure (record { driver_id = id; availability = a; updated_at = 0 });
  get_availability = λ id w. (ok (some (status_in w.onlines id)), w);
  record_location = λ id l. pure l;
  latest_location = λ id. pure none;
}

abbrev pub service : DriverService Memory
service = wired runtime trip_store assignment_store drivers none none
