-- ===== src/Http/Trips/Tests.antt =====
-- The handlers of trips at requests that meet the hypotheses of their theorems.
use uitgo_monorepo.Base.{◌≡◌, refl, ◌⊎◌, none, some, [], ◌∷◌, Option}
use uitgo_monorepo.Base.Int.{pos}
use uitgo_monorepo.Base.Action.{ok, pure}
use uitgo_monorepo.Base.Action.Ensures.{Ensures, returned, raised}
use uitgo_monorepo.Http.{Context}
use uitgo_monorepo.Http.Params.{ListQuery, Within, paging, paging-Within}
use uitgo_monorepo.Trip.{Trip, in_ride}
use uitgo_monorepo.Trip.Store.{TripModel}
use uitgo_monorepo.Trip.Repository.{get_trip, found_trip, trip_sync_repository, trip_repository}
use uitgo_monorepo.Trip.Service.{fetch}
use uitgo_monorepo.Driver.Memory.{Memory, runtime, trip_store, trip_of}
use uitgo_monorepo.Http.Trips.{update_trip_status}
use uitgo_monorepo.Http.Trips.Data.{TripHandler}
use uitgo_monorepo.Http.Trips
use uitgo_monorepo.Http.Trips.Access.{
  Allowed, IsReadSafe, get_trip-Allowed, update_trip_status-Allowed,
}

abbrev query : ListQuery
query = record { role = "rider"; limit = "-5"; offset = ""; page = "10001"; page_size = "500" }

paging-Within_example : Within (pos 100) (paging query).0 × Within (pos 999900) (paging query).1
paging-Within_example = paging-Within query

abbrev ride : TripModel
ride = record {
  id = "t";
  rider_id = "u";
  driver_id = some "d";
  service_id = "uit-go";
  origin_text = "A";
  dest_text = "B";
  origin_lat = none;
  origin_lng = none;
  dest_lat = none;
  dest_lng = none;
  status = in_ride;
  created_at = 1;
  updated_at = 1;
}

abbrev riding : Memory
riding = record { trips = ride ∷ []; assignments = []; onlines = []; clock = 7 }

abbrev handler : TripHandler Memory
handler = record {
  service = record {
    repo = trip_repository runtime trip_store;
    wallets = none;
    notifier = none;
    new_id = runtime.new_id;
    now = runtime.now;
  };
  driver_service = none;
  hubs = record { broadcast_status = λ trip_id status. pure tt };
  dispatcher = none;
}

abbrev rider : Context
rider = record { user_id = "u"; role = "rider" }

abbrev stranger : Context
stranger = record { user_id = "x"; role = "rider" }

found_trip-Kept :
    (o : Option TripModel) (w : Memory)
    → w.trips ≡ riding.trips
    → Ensures
        (λ _ w'. w'.trips ≡ riding.trips)
        (λ _ w'. w'.trips ≡ riding.trips)
        (found_trip runtime trip_store o w)
unfolding found_trip
found_trip-Kept none w p = raised p
found_trip-Kept (some m) w p = returned p

handler-IsReadSafe : IsReadSafe handler (λ w. w.trips ≡ riding.trips)
unfolding fetch trip_repository trip_sync_repository get_trip trip_store
handler-IsReadSafe = record {
  fetch_law = λ id w p. found_trip-Kept (trip_of w.trips id) w p;
  me_law = λ drivers user_id w some_service p. cc;
}

get_trip-Allowed_example :
    Ensures
      (λ a w. Allowed handler rider "t" a.1.0 riding)
      (λ e w. Unit {0})
      (Trips.get_trip handler rider "t" riding)
get_trip-Allowed_example = get_trip-Allowed handler-IsReadSafe rider "t" riding refl

update_trip_status-Allowed_example :
    Ensures
      (λ a w. (trip : Trip) × Allowed handler stranger "t" trip riding)
      (λ e w. (w.trips ≡ riding.trips) ⊎ ((trip : Trip) × Allowed handler stranger "t" trip riding))
      (update_trip_status handler stranger "t" (ok "cancelled") riding)
update_trip_status-Allowed_example =
    update_trip_status-Allowed handler-IsReadSafe stranger "t" (ok "cancelled") riding refl
