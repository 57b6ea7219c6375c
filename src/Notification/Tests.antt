-- ===== src/Notification/Tests.antt =====
-- The theorems on notifications at a service that meets their hypotheses: its sender fails on a blank
-- token and counts the messages that it sends.
use mathlib.Core.Path.{subst}
use uitgo_monorepo.Base.{
  ℕ, suc, String, ◌≡◌, refl, Bool, true, false, none, some, List, [], ◌∷◌, if◌then◌else◌,
}
use uitgo_monorepo.Base.Text.{is_empty}
use uitgo_monorepo.Base.Action.{Action, ok, pure}
use uitgo_monorepo.Base.Action.Ensures.{Ensures, returned}
use uitgo_monorepo.Trip.{Trip, in_ride, completed}
use uitgo_monorepo.Driver.{Driver}
use uitgo_monorepo.Notification.{
  DeviceTokenRepository, DeviceToken, Sender, Service, notifier, send, notify_driver_trip_assigned,
  route_text, assigned_data,
}
use uitgo_monorepo.Notification.Pushing.{PartsKeep, Keeps, notifier-Keeps}
use uitgo_monorepo.Notification.Routes.{notify_driver_trip_assigned-route_text}

-- The messages that were sent, and whether one had no token or a blank one.
abbrev Outbox : Type 0
Outbox = ℕ × Bool

abbrev phone : String → DeviceToken
phone token = record { id = "p"; user_id = "u"; platform = "ios"; token = token; created_at = 1 }

abbrev token_store : DeviceTokenRepository Outbox
token_store = record {
  register = λ user_id platform token. pure (phone token);
  list_by_users = λ us. pure (phone " abc " ∷ phone "  " ∷ []);
}

send_first : List String → Action Outbox (Unit {0})
send_first [] (n, bad) = (ok tt, (n, true))
send_first (t ∷ ts) (n, bad) = (ok tt, (suc n, if is_empty t then true else bad))

abbrev push : Sender Outbox
push = record { send = λ ts m. send_first ts }

abbrev service : Service Outbox
service = record { repo = none; tokens = some token_store; sender = some push }

-- No message went to a blank token.
abbrev IsFine : Outbox → Type 0
IsFine (n, bad) = bad ≡ false

parts : PartsKeep IsFine service
unfolding send_first
parts = record {
  create_law = λ r n is w i. cc;
  list_law = λ r us is w i.
      let same : token_store ≡ r = cc in
      subst (λ r. Ensures (λ a w'. IsFine w') (λ e w'. IsFine w') (r.list_by_users us w)) same
        (returned i);
  send_law = λ x t ts m is texts w i.
      let same : push ≡ x = cc in
      subst (λ x. Ensures (λ a w'. IsFine w') (λ e w'. IsFine w') (x.send (t ∷ ts) m w)) same
        (returned (rw (texts.0).not_empty i));
}

abbrev ride : Trip
ride = record {
  id = "t";
  rider_id = "u";
  driver_id = some "d";
  service_id = "uit-go";
  origin_text = "";
  dest_text = "";
  origin_lat = none;
  origin_lng = none;
  dest_lat = none;
  dest_lng = none;
  status = in_ride;
  created_at = 1;
  updated_at = 1;
}

abbrev driver : Driver
driver = record {
  id = "d";
  user_id = "u";
  full_name = "D";
  phone = "";
  license_number = "";
  avatar_url = none;
  rating = 0;
  created_at = 1;
  updated_at = 1;
  vehicle = none;
  status = none;
  location = none;
}

notifier-Keeps_example :
    Keeps IsFine ((notifier service).notify_rider_status_change ride completed)
    × Keeps IsFine ((notifier service).notify_driver_trip_assigned driver ride)
notifier-Keeps_example = notifier-Keeps parts driver ride completed

notify_driver_trip_assigned-route_text_example :
    notify_driver_trip_assigned service driver ride (0, false)
    ≡ send service "u" "trip.assigned" "New trip assigned"
        (route_text service ride)
        (some "t")
        (assigned_data service ride)
        (0, false)
notify_driver_trip_assigned-route_text_example =
    notify_driver_trip_assigned-route_text service driver ride (0, false) refl
