-- ===== src/Live/Messages/Confined.antt =====
-- What the messages of a client reach, through `readPump` of backend/internal/http/handlers/ws.go.
use mathlib.Core.Path.{subst}
use uitgo_monorepo.Base.{
  ℕ, String, ◌≡◌, refl, sym, ◌∙◌, false, not, ◌==◌, Option, none, some, List, [], ◌∷◌,
}
use uitgo_monorepo.Base.Text.{is_empty}
use uitgo_monorepo.Base.Action.{Result, ok, err, Action, pure}
use uitgo_monorepo.Base.Action.Ensures.{
  Ensures, returned, Ensures-bind, Ensures-if, Ensures-attempt, Ensures-mono,
}
use uitgo_monorepo.Http.Trips.Data.{to_status}
use uitgo_monorepo.Trip.{TripStatus, LocationUpdate}
use uitgo_monorepo.Trip.Service.{TripService, fetch, update_status, record_location}
use uitgo_monorepo.Driver.{DriverLocation}
use uitgo_monorepo.Live.Messages.{
  InboundMessage, OutboundMessage, status_message, location_message, Session, SocketHub,
  fetched_driver, resolve_driver_id, persist_with, located, restated, handled, received, read_pump,
  driver_location, save_driver_location,
}

pub data IsAbout (trip_id : String) : OutboundMessage → Type 0 where
  about_status : (status : TripStatus) (at : ℕ) → IsAbout trip_id (status_message trip_id status at)
  about_location :
      (update : LocationUpdate) (at : ℕ) → IsAbout trip_id (location_message trip_id update at)

module _ {W : Type 0} (h : SocketHub W) (s : TripService W) (P : W → Type 0) where
  abbrev Keeps : {A : Type 0} → Action W A → Type 0
  Keeps m = (w : W) → P w → Ensures (λ _ w'. P w') (λ _ w'. P w') (m w)

  -- What the operations on the trip keep, the messages about it and the records of a driver's place.
  pub record IsKept (trip_id : String) : Type 0 where
    pub now_law : (w : W) → P w → P (h.now w).1
    pub fetch_law : Keeps (fetch s trip_id)
    pub record_location_law : (update : LocationUpdate) → Keeps (record_location s trip_id update)
    pub update_status_law : (status : TripStatus) → Keeps (update_status s trip_id status)
    -- the send to the hub waits and does not fail
    pub broadcast_law :
        (m : OutboundMessage)
        → IsAbout trip_id m
        → (w : W) → P w
        → Ensures (λ _ w'. P w') (λ _ w'. ⊥) (h.broadcast m w)
    pub writer_law :
        (writer : String → DriverLocation → Action W (Unit {0})) (driver_id : String)
        (l : DriverLocation)
        → h.driver_locations ≡ some writer
        → l.driver_id ≡ driver_id
        → is_empty driver_id ≡ false
        → Keeps (writer driver_id l)

  -- A client that is still the same but for the driver that it remembers.
  pub record IsSession (c c' : Session) (w : W) : Type 0 where
    pub kept : P w
    pub role : c'.role ≡ c.role
    pub user : c'.user_id ≡ c.user_id
    pub trip : c'.trip_id ≡ c.trip_id

  abbrev pub Goes : Session → Action W Session → Type 0
  Goes c m = (w : W) → P w → Ensures (λ c' w'. IsSession c c' w') (λ _ w'. ⊥) (m w)

module _ {W : Type 0} {h : SocketHub W} {s : TripService W} {P : W → Type 0} where
  stays : (c : Session) (w : W) → P w → IsSession h s P c c w
  stays c w p = record { kept = p; role = refl; user = refl; trip = refl }

  resolve_driver_id-Keeps :
      (c : Session) (w : W)
      → IsKept h s P c.trip_id
      → P w
      → Ensures (λ _ w'. P w') (λ _ w'. ⊥) (resolve_driver_id h s c w)
  unfolding resolve_driver_id
  resolve_driver_id-Keeps c w laws p =
      Ensures-if (not (is_empty c.driver_id)) (pure c.driver_id) _ w (λ _. returned p)
        (λ _.
          Ensures-attempt (fetch s c.trip_id) (λ x. pure (fetched_driver x)) w (laws.fetch_law w p)
            (λ trip w1 p1. returned p1) (λ e w1 p1. returned p1))

  save_driver_location-Keeps :
      (writer : String → DriverLocation → Action W (Unit {0})) (c : Session) (driver_id : String)
      (update : LocationUpdate)
      → h.driver_locations ≡ some writer
      → IsKept h s P c.trip_id
      → (w : W) → P w
      → Ensures (λ _ w'. P w') (λ _ w'. ⊥) (save_driver_location writer driver_id update w)
  unfolding save_driver_location
  save_driver_location-Keeps writer c driver_id update is laws w p =
      Ensures-if (is_empty driver_id) (pure tt) _ w (λ _. returned p)
        (λ named.
          let place = driver_location driver_id update in
          Ensures-attempt (writer driver_id place) (λ x. pure tt) w
            (laws.writer_law writer driver_id place is refl named w p) (λ _ w1 p1. returned p1)
            (λ e w1 p1. returned p1))

  persist_with-Goes :
      (o : Option (String → DriverLocation → Action W (Unit {0}))) (c : Session)
      (update : LocationUpdate)
      → h.driver_locations ≡ o
      → IsKept h s P c.trip_id
      → Goes h s P c (persist_with h s o c update)
  unfolding persist_with
  persist_with-Goes none c update is laws w p = returned (stays c w p)
  persist_with-Goes (some writer) c update is laws w p =
      Ensures-bind (resolve_driver_id h s c) _ w (resolve_driver_id-Keeps c w laws p)
        (λ driver_id w1 p1.
          Ensures-bind (save_driver_location writer driver_id update) _ w1
            (save_driver_location-Keeps writer c driver_id update is laws w1 p1)
            (λ _ w2 p2. returned (record { kept = p2; role = refl; user = refl; trip = refl }))
            (λ e w2 never. never))
        (λ e w1 never. never)

  located-Goes :
      (c : Session) (update : LocationUpdate) (x : Result (Unit {0}))
      → IsKept h s P c.trip_id
      → Goes h s P c (located h s c update x)
  unfolding located
  located-Goes c update (err e) laws w p = returned (stays c w p)
  located-Goes c update (ok u) laws w p =
      Ensures-bind (persist_with h s h.driver_locations c update) _ w
        (persist_with-Goes h.driver_locations c update refl laws w p)
        (λ c' w1 same.
          Ensures-bind (h.broadcast (location_message c.trip_id update update.timestamp)) _ w1
            (laws.broadcast_law _ (about_location update update.timestamp) w1 same.kept)
            (λ _ w2 p2.
              returned (record { kept = p2; role = same.role; user = same.user; trip = same.trip }))
            (λ e w2 never. never))
        (λ e w1 never. never)

  restated-Goes :
      (c : Session) (status : TripStatus) (x : Result (Unit {0}))
      → IsKept h s P c.trip_id
      → Goes h s P c (restated h s c status x)
  unfolding restated
  restated-Goes c status (err e) laws w p = returned (stays c w p)
  restated-Goes c status (ok u) laws w p =
      let n = (h.now w).0 in
      let w0 = (h.now w).1 in
      Ensures-bind (h.broadcast (status_message c.trip_id status n)) _ w0
        (laws.broadcast_law _ (about_status status n) w0 (laws.now_law w p))
        (λ _ w1 p1. returned (stays c w1 p1)) (λ e w1 never. never)

  handled-Goes :
      (c : Session) (m : InboundMessage) → IsKept h s P c.trip_id → Goes h s P c (handled h s c m)
  unfolding handled
  handled-Goes c m laws w p =
      Ensures-if (m.kind == "location") _ _ w
        (λ _.
          let w0 = (h.now w).1 in
          let update : LocationUpdate = record {
            latitude = m.lat;
            longitude = m.lng;
            timestamp = (h.now w).0;
          } in
          Ensures-attempt (record_location s c.trip_id update) (λ x. located h s c update x) w0
            (laws.record_location_law update w0 (laws.now_law w p))
            (λ u w1 p1. located-Goes c update (ok u) laws w1 p1)
            (λ e w1 p1. located-Goes c update (err e) laws w1 p1))
        (λ _.
          Ensures-if (m.kind == "status") _ (pure c) w
            (λ _.
              Ensures-if (is_empty m.status) (pure c) _ w (λ _. returned (stays c w p))
                (λ _.
                  let status = to_status m.status in
                  Ensures-attempt (update_status s c.trip_id status) (λ x. restated h s c status x)
                    w (laws.update_status_law status w p)
                    (λ u w1 p1. restated-Goes c status (ok u) laws w1 p1)
                    (λ e w1 p1. restated-Goes c status (err e) laws w1 p1)))
            (λ _. returned (stays c w p)))

  received-Goes :
      (c : Session) (m : Result InboundMessage)
      → IsKept h s P c.trip_id
      → Goes h s P c (received h s c m)
  unfolding received
  received-Goes c (err e) laws w p = returned (stays c w p)
  received-Goes c (ok m) laws w p =
      Ensures-if (c.role == "driver") _ (pure c) w (λ _. handled-Goes c m laws w p)
        (λ _. returned (stays c w p))

  -- Whatever messages a client sends, reading them fails nowhere and keeps what the operations on its
  -- own trip, messages about that trip and records of the place of a driver with a name keep; the
  -- client stays the same user in the same role at the same trip.
  pub read_pump-Goes :
      (ms : List (Result InboundMessage)) (c : Session)
      → IsKept h s P c.trip_id
      → Goes h s P c (read_pump h s ms c)
  unfolding read_pump
  read_pump-Goes [] c laws w p = returned (stays c w p)
  read_pump-Goes (m ∷ ms) c laws w p =
      Ensures-bind (received h s c m) _ w (received-Goes c m laws w p)
        (λ c' w1 same.
          Ensures-mono
            (read_pump-Goes ms c' (subst (λ x. IsKept h s P x) (sym same.trip) laws) w1 same.kept)
            (λ c'' w2 then. record {
              kept = then.kept;
              role = then.role ∙ same.role;
              user = then.user ∙ same.user;
              trip = then.trip ∙ same.trip;
            })
            (λ e w2 never. never))
        (λ e w1 never. never)

-- A client that is no driver changes nothing by what it sends, and nobody is told of it.
pub read_pump-idle :
    {W : Type 0} (h : SocketHub W) (s : TripService W) (ms : List (Result InboundMessage))
    (c : Session) (w : W)
    → (c.role == "driver") ≡ false
    → read_pump h s ms c w ≡ (ok c, w)
unfolding read_pump received
read_pump-idle h s [] c w other = refl
read_pump-idle h s (err e ∷ ms) c w other = read_pump-idle h s ms c w other
read_pump-idle h s (ok m ∷ ms) c w other = rw other (read_pump-idle h s ms c w other)
