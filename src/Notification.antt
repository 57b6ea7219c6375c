-- ===== src/Notification.antt =====
-- The notification service of backend/internal/notification/service.go, over the interfaces of
-- backend/internal/domain/notification.go and device_token.go.
pub mod Pushing
pub mod Routes
pub mod Repositories
mod Tests
use uitgo_monorepo.Base.{
  ℕ, String, Bool, true, false, ◌||◌, Option, none, some, List, [], ◌∷◌, ◌==◌, if◌then◌else◌,
}
use uitgo_monorepo.Base.Int.{ℤ}
use uitgo_monorepo.Base.Text.{is_empty, trim_space, to_lower, concat}
use uitgo_monorepo.Errors.{message}
use uitgo_monorepo.Base.Action.{Action, pure, raise, raise_if, ◌>>=◌, ◌>>◌}
use uitgo_monorepo.Trip.{TripStatus, Trip, arriving, completed, status_text}
use uitgo_monorepo.Driver.{Driver, TripEventNotifier}

pub record Notification : Type 0 where
  pub id : String
  pub user_id : String
  pub title : String
  pub body : String
  pub kind : String
  pub trip_id : Option String
  pub created_at : ℕ
  pub read_at : Option ℕ

pub record DeviceToken : Type 0 where
  pub id : String
  pub user_id : String
  pub platform : String
  pub token : String
  pub created_at : ℕ

pub record NotificationRepository (W : Type 0) : Type 0 where
  pub create : Notification → Action W (Unit {0})
  pub create_many : List Notification → Action W (Unit {0})
  pub list : String → Bool → ℤ → ℤ → Action W (List Notification × ℤ)
  pub mark_as_read : String → String → Action W (Unit {0})

pub record DeviceTokenRepository (W : Type 0) : Type 0 where
  pub register : String → String → String → Action W DeviceToken
  pub list_by_users : List String → Action W (List DeviceToken)

-- A Go map is a list of its entries.
pub record PushMessage : Type 0 where
  pub title : String
  pub body : String
  pub entries : List (String × String)

pub record Sender (W : Type 0) : Type 0 where
  pub send : List String → PushMessage → Action W (Unit {0})

-- `Service`, which is not nil itself; what is nil in it is `none`.
pub record Service (W : Type 0) : Type 0 where
  pub repo : Option (NotificationRepository W)
  pub tokens : Option (DeviceTokenRepository W)
  pub sender : Option (Sender W)

unfoldable pub normalize_platform : String → String
normalize_platform platform =
    let normalized = trim_space (to_lower platform) in
    if normalized == "ios" || (normalized == "android") || (normalized == "web")
    then normalized
    else "unknown"

-- `payload[k] = v`
unfoldable pub set_entry : String → String → List (String × String) → List (String × String)
set_entry k v [] = (k, v) ∷ []
set_entry k v ((j, x) ∷ entries) =
    if j == k then (k, v) ∷ entries else (j, x) ∷ set_entry k v entries

-- The copy of the metadata with the id of the trip.
abbrev pub payload_of : List (String × String) → Option String → List (String × String)
payload_of meta none = meta
payload_of meta (some trip_id) = set_entry "tripId" trip_id meta

-- The loop over the device tokens: the texts that are not blank, trimmed.
unfoldable pub push_tokens : List DeviceToken → List String
push_tokens [] = []
push_tokens (t ∷ ts) =
    let trimmed = trim_space t.token in
    let rest = push_tokens ts in if is_empty trimmed then rest else trimmed ∷ rest

abbrev pub new_notification : String → String → String → String → Option String → Notification
new_notification user_id kind title body trip_id = record {
  id = "";
  user_id = user_id;
  title = title;
  body = body;
  kind = kind;
  trip_id = trip_id;
  created_at = 0;
  read_at = none;
}

module _ {W : Type 0} where
  unfoldable pub stored : Option (NotificationRepository W) → Notification → Action W (Unit {0})
  stored none n = pure tt
  stored (some repo) n = if is_empty n.kind then pure tt else repo.create n

  -- `sender.Send` where there is a token to send to.
  unfoldable pub sent : Sender W → List String → PushMessage → Action W (Unit {0})
  sent sender [] m = pure tt
  sent sender (t ∷ ts) m = sender.send (t ∷ ts) m

  unfoldable pub pushed :
      Option (DeviceTokenRepository W)
      → Option (Sender W)
      → String
      → PushMessage
      → Action W (Unit {0})
  pushed none sender user_id m = pure tt
  pushed (some repo) none user_id m = pure tt
  pushed (some repo) (some sender) user_id m = do
    tokens ← repo.list_by_users (user_id ∷ [])
    sent sender (push_tokens tokens) m

module _ {W : Type 0} (s : Service W) where
  registered : Option (DeviceTokenRepository W) → String → String → String → Action W DeviceToken
  registered none user_id platform token = raise (message "device token store unavailable")
  registered (some repo) user_id platform token = do
    raise_if (is_empty (trim_space user_id)) (message "user id required")
    raise_if (is_empty (trim_space token)) (message "token required")
    repo.register (trim_space user_id) (normalize_platform platform) (trim_space token)

  unfoldable pub register_device : String → String → String → Action W DeviceToken
  unfolding registered
  register_device = registered s.tokens

  unfoldable pub send :
      String
      → String
      → String
      → String
      → Option String
      → List (String × String)
      → Action W (Unit {0})
  send user_id kind title body trip_id meta = do
    stored s.repo (new_notification user_id kind title body trip_id)
    pushed s.tokens s.sender user_id
        (record { title = title; body = body; entries = payload_of meta trip_id })

  -- `fmt.Sprintf("%s → %s", ...)`
  unfoldable pub route_text : Trip → String
  route_text trip = concat (trim_space trip.origin_text) (concat " → " (trim_space trip.dest_text))

  abbrev pub assigned_data : Trip → List (String × String)
  assigned_data trip =
      ("event", "trip.assigned")
      ∷ ("tripId", trip.id)
      ∷ ("tripStatus", status_text trip.status)
      ∷ []

  unfoldable pub notify_driver_trip_assigned : Driver → Trip → Action W (Unit {0})
  unfolding route_text
  notify_driver_trip_assigned driver trip =
      if is_empty driver.user_id
      then pure tt
      else send driver.user_id "trip.assigned" "New trip assigned"
          (if route_text trip == "→" then "You have a new trip request." else route_text trip)
          (some trip.id) (assigned_data trip)

  status_data : Trip → TripStatus → List (String × String)
  status_data trip status =
      ("event", "trip.status") ∷ ("status", status_text status) ∷ ("tripId", trip.id) ∷ []

  unfoldable pub notify_rider_status_change : Trip → TripStatus → Action W (Unit {0})
  unfolding status_data
  notify_rider_status_change trip arriving =
      if is_empty trip.rider_id
      then pure tt
      else send trip.rider_id (concat "trip." (status_text arriving)) "Your driver has arrived"
          (concat "Your driver is near " (concat (trim_space trip.origin_text) ".")) (some trip.id)
          (status_data trip arriving)
  notify_rider_status_change trip completed =
      if is_empty trip.rider_id
      then pure tt
      else send trip.rider_id (concat "trip." (status_text completed)) "Trip completed"
          (concat "Hope you enjoyed your ride to " (concat (trim_space trip.dest_text) "."))
          (some trip.id) (status_data trip completed)
  notify_rider_status_change trip _ = pure tt

  unfoldable pub notifier : TripEventNotifier W
  notifier = record {
    notify_rider_status_change = notify_rider_status_change;
    notify_driver_trip_assigned = notify_driver_trip_assigned;
  }
