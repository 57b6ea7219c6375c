-- ===== src/Live/Messages/Tests.antt =====
-- Clients whose messages are read, over a service that notes the trips that it was asked about.
use mathlib.Core.Path.{subst}
use uitgo_monorepo.Base.{String, ◌≡◌, refl, true, not, none, some, List, [], ◌∷◌, All, ◌↔◌, ◌⊎◌}
use uitgo_monorepo.Base.Int.{pos}
use uitgo_monorepo.Base.Text.{is_empty}
use uitgo_monorepo.Errors.{trip_not_found, invalid_status, external}
use uitgo_monorepo.Base.Action.{Result, ok, err, Action, raise, pure}
use uitgo_monorepo.Base.Action.Ensures.{Ensures, returned, raised, Ensures-raise_if}
use uitgo_monorepo.Trip.{Trip, in_ride}
use uitgo_monorepo.Trip.Service.{
  TripService, fetch, update_status, record_location, read_before, settle, is_valid_status,
}
use uitgo_monorepo.Driver.{DriverLocation}
use uitgo_monorepo.Live.Messages.{InboundMessage, Session, SocketHub, read_pump, can_access_trip_ws}
use uitgo_monorepo.Live.Messages.Confined.{IsKept, IsSession, read_pump-Goes, read_pump-idle}
use uitgo_monorepo.Live.Admission.{
  IsAdmitted, Begins, check_websocket_origin, is_allowed, check_websocket_origin_iff,
  can_access_trip_ws_iff, default_origins,
}

-- The trips that were asked about, the last one first.
abbrev Log : Type 0
Log = List String

abbrev noting : {A : Type 0} → String → Result A → Action Log A
noting id r w = (r, id ∷ w)

abbrev noting_service : TripService Log
noting_service = record {
  repo = record {
    create_trip = λ trip. pure trip;
    save_location = λ id update. noting id (ok tt);
    get_latest_location = λ id. noting id (ok none);
    list_trips = λ user_id role limit offset. pure ([], pos 0);
    purge_all = pure tt;
    sync = record {
      get_trip = λ id. noting id (err trip_not_found);
      update_trip_status = λ id status. noting id (ok tt);
      set_trip_driver = λ id driver_id. noting id (ok tt);
    };
  };
  wallets = none;
  notifier = none;
  new_id = λ w. ("", w);
  now = λ w. (1, w);
}

abbrev no_place : String → DriverLocation → Action Log (Unit {0})
no_place driver_id location = raise (external 7)

abbrev noting_hub : SocketHub Log
noting_hub = record {
  driver_locations = some no_place;
  broadcast = λ m. pure tt;
  upgrade = pure tt;
  join = pure tt;
  now = λ w. (1, w);
}

abbrev OnlyTrip : Log → Type 0
OnlyTrip w = All (λ id. id ≡ "t") w

noting-IsKept : IsKept noting_hub noting_service OnlyTrip "t"
unfolding fetch update_status record_location read_before settle
noting-IsKept = record {
  now_law = λ w p. p;
  fetch_law = λ w p. raised (refl, p);
  record_location_law = λ update w p. returned (refl, p);
  update_status_law = λ status w p.
      Ensures-raise_if (not (is_valid_status status)) invalid_status _ w (λ _. p)
        (λ _. returned (refl, p));
  broadcast_law = λ m about w p. returned p;
  writer_law = λ writer driver_id l is same named w p.
      let e : no_place ≡ writer = cc in
      subst
        (λ (f : String → DriverLocation → Action Log (Unit {0})).
          Ensures (λ _ w'. OnlyTrip w') (λ _ w'. OnlyTrip w') (f driver_id l w))
        e (raised p);
}

abbrev driving : Session
driving = record { role = "driver"; user_id = "u"; trip_id = "t"; driver_id = "" }

abbrev riding : Session
riding = record { role = "rider"; user_id = "u"; trip_id = "t"; driver_id = "" }

abbrev sent : List (Result InboundMessage)
sent =
    ok (record { kind = "location"; status = ""; lat = 0; lng = 0 })
    ∷ ok (record { kind = "status"; status = "arriving"; lat = 0; lng = 0 })
    ∷ err (external 2)
    ∷ []

read_pump-Goes_example :
    Ensures
      (λ c w. IsSession noting_hub noting_service OnlyTrip driving c w)
      (λ e w. ⊥)
      (read_pump noting_hub noting_service sent driving [])
read_pump-Goes_example = read_pump-Goes sent driving noting-IsKept [] tt

idle_run : read_pump noting_hub noting_service sent riding [] ≡ (ok riding, [])
idle_run = read_pump-idle noting_hub noting_service sent riding [] refl

-- Another host than localhost.
check_websocket_origin_iff_example :
    (check_websocket_origin default_origins "http://localhost.example.com" ≡ true) ↔ (
      (is_empty "http://localhost.example.com" ≡ true)
      ⊎ Begins "http://localhost.example.com" default_origins)
check_websocket_origin_iff_example =
    check_websocket_origin_iff default_origins "http://localhost.example.com"

lookalike : check_websocket_origin default_origins "http://localhost.example.com" ≡ true
unfolding check_websocket_origin is_allowed
lookalike = refl

abbrev others_trip : Trip
others_trip = record {
  id = "t";
  rider_id = "u";
  driver_id = some "d";
  service_id = "uit-go";
  origin_text = "A";
  dest_text = "B";
  origin_lat = none;
  origin_lng = none;
  dest_lat = none;
  dest_lng = none;
  status = in_ride;
  created_at = 1;
  updated_at = 1;
}

can_access_trip_ws_iff_example :
    (can_access_trip_ws others_trip "x" "Driver" ≡ true) ↔ IsAdmitted others_trip "x" "Driver"
can_access_trip_ws_iff_example = can_access_trip_ws_iff others_trip "x" "Driver"
