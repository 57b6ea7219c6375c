-- ===== src/Http/Trips/Access.antt =====
-- Who may read and change a trip through backend/internal/http/handlers/trips.go.
use uitgo_monorepo.Base.{
  String, ◌≡◌, refl, sym, ap, ◌∙◌, Bool, true, false, not, ◌==◌, eq_iff, Option, none, some, ◌⊎◌,
  inl, inr,
}
use uitgo_monorepo.Base.Text.{is_empty}
use uitgo_monorepo.Errors.{response}
use uitgo_monorepo.Base.Action.{Result, ok, err, pure}
use uitgo_monorepo.Base.Action.Ensures.{
  Ensures, returned, raised, Ensures-bind, Ensures-mono, Ensures-if, Ensures-raise_if,
  Ensures-attempt, Ensures-known, Ensures-any,
}
use uitgo_monorepo.Http.{Context, or_refuse, Ensures-or_refuse}
use uitgo_monorepo.Trip.{Trip}
use uitgo_monorepo.Trip.Service.{fetch, latest_location}
use uitgo_monorepo.Driver.{Driver}
use uitgo_monorepo.Driver.Service.{DriverService, me}
use uitgo_monorepo.Http.Trips.{
  can_access_trip, drives, accessible, get_trip, update_trip_status, updated,
}
use uitgo_monorepo.Http.Trips.Data.{
  TripHandler, role_of, missing_user, is_driver_of, to_status, not_fetched,
}

module _ {W : Type 0} (h : TripHandler W) (c : Context) where
  -- An admin, the rider of the trip, or the user whose profile is that of the trip's driver.
  pub data Entitled (trip : Trip) (w : W) : Type 0 where
    as_admin : role_of c ≡ "admin" → Entitled trip w
    as_rider : trip.rider_id ≡ c.user_id → Entitled trip w
    as_driver :
        (drivers : DriverService W) (driver : Driver) (w' : W)
        → h.driver_service ≡ some drivers
        → me drivers c.user_id w ≡ (ok driver, w')
        → trip.driver_id ≡ some driver.id
        → Entitled trip w

  -- The trip that the service found, to whose user the request belongs.
  pub record Allowed (trip_id : String) (trip : Trip) (w : W) : Type 0 where
    pub read : W
    pub found : fetch h.service trip_id w ≡ (ok trip, read)
    pub entitled : Entitled trip read

-- What reading a trip and a profile keeps.
pub record IsReadSafe {W : Type 0} (h : TripHandler W) (P : W → Type 0) : Type 0 where
  pub fetch_law :
      (id : String) (w : W) → P w → Ensures (λ _ w'. P w') (λ _ w'. P w') (fetch h.service id w)
  pub me_law :
      (drivers : DriverService W) (user_id : String) (w : W)
      → h.driver_service ≡ some drivers
      → P w
      → Ensures (λ _ w'. P w') (λ _ w'. P w') (me drivers user_id w)

is_true : (b : Bool) → not b ≡ false → b ≡ true
is_true true h = refl
is_true false h = cc

module _ {W : Type 0} {h : TripHandler W} {P : W → Type 0} (safe : IsReadSafe h P)
    (c : Context) where
  drives-Entitled :
      (o : Option (DriverService W)) (driver_id : Option String) (trip : Trip) (w : W)
      → h.driver_service ≡ o
      → trip.driver_id ≡ driver_id
      → P w
      → Ensures
          (λ b w'. (b ≡ true → Entitled h c trip w) × P w')
          (λ e w'. ⊥)
          (drives h o driver_id c.user_id w)
  unfolding drives
  drives-Entitled o none trip w service is p = returned (λ no_driver. cc, p)
  drives-Entitled none (some d) trip w service is p = returned (λ no_service. cc, p)
  drives-Entitled (some drivers) (some d) trip w service is p =
      Ensures-if (is_empty d) (pure false) _ w (λ _. returned (λ nobody. cc, p))
        (λ _.
          Ensures-attempt (me drivers c.user_id) (λ x. pure (is_driver_of x d)) w
            (Ensures-known (safe.me_law drivers c.user_id w service p))
            (λ driver w1 (p1, known). returned (
              λ same.
                  as_driver drivers driver w1 service known
                    (is ∙ ap some (sym ((eq_iff driver.id d).0 same))),
              p1,
            ))
            (λ e w1 (p1, _).
              let never : ◌≡◌ {A = Bool} false true → Entitled h c trip w = λ failed. cc in
              returned (never, p1)))

  can_access_trip-Entitled :
      (trip : Trip) (w : W)
      → P w
      → Ensures
          (λ b w'. (b ≡ true → Entitled h c trip w) × P w')
          (λ e w'. ⊥)
          (can_access_trip h trip c.user_id (role_of c) w)
  unfolding can_access_trip
  can_access_trip-Entitled trip w p =
      Ensures-if (role_of c == "admin") (pure true) _ w
        (λ same. returned (λ _. as_admin ((eq_iff (role_of c) "admin").0 same), p))
        (λ _.
          Ensures-if (trip.rider_id == c.user_id) (pure true) _ w
            (λ same. returned (λ _. as_rider ((eq_iff trip.rider_id c.user_id).0 same), p))
            (λ _. drives-Entitled h.driver_service trip.driver_id trip w refl refl p))

  accessible-Allowed :
      (trip_id : String) (w : W)
      → P w
      → Ensures
          (λ trip w'. Allowed h c trip_id trip w × P w')
          (λ e w'. P w')
          (accessible h c trip_id w)
  unfolding accessible
  accessible-Allowed trip_id w p =
      Ensures-bind (or_refuse not_fetched (fetch h.service trip_id)) _ w
        (Ensures-or_refuse not_fetched (fetch h.service trip_id) w
          (Ensures-known (safe.fetch_law trip_id w p)) (λ e w1 (p1, _). p1))
        (λ trip w1 (p1, found).
          Ensures-bind (can_access_trip h trip c.user_id (role_of c)) _ w1
            (can_access_trip-Entitled trip w1 p1)
            (λ allowed w2 (entitled, p2).
              Ensures-raise_if (not allowed) _ _ w2 (λ _. p2)
                (λ granted. returned (
                  record {
                    read = w1;
                    found = found;
                    entitled = entitled (is_true allowed granted);
                  },
                  p2,
                )))
            (λ e w2 never. elim never [ ]))
        (λ e w1 p1. p1)

  -- A trip is shown only to an admin, to its rider, and to the user whose profile is that of its
  -- driver, as they were when the trip was read.
  pub get_trip-Allowed :
      (trip_id : String) (w : W)
      → P w
      → Ensures (λ a w'. Allowed h c trip_id a.1.0 w) (λ e w'. Unit {0}) (get_trip h c trip_id w)
  unfolding get_trip
  get_trip-Allowed trip_id w p =
      Ensures-raise_if (missing_user c) _ _ w (λ _. tt)
        (λ _.
          Ensures-bind (accessible h c trip_id) _ w (accessible-Allowed trip_id w p)
            (λ trip w1 (allowed, p1).
              Ensures-bind (or_refuse (λ e. response 500 e) (latest_location h.service trip_id)) _
                w1 (Ensures-any _) (λ location w2 _. returned allowed) (λ e w2 _. tt))
            (λ e w1 _. tt))

  -- A status is written only for an admin, the rider of the trip, or the user whose profile is that of
  -- its driver: a request of anyone else is refused, and keeps what reading a trip and a profile
  -- keeps.
  pub update_trip_status-Allowed :
      (trip_id : String) (body : Result String) (w : W)
      → P w
      → Ensures
          (λ a w'. (trip : Trip) × Allowed h c trip_id trip w)
          (λ e w'. P w' ⊎ ((trip : Trip) × Allowed h c trip_id trip w))
          (update_trip_status h c trip_id body w)
  unfolding update_trip_status
  update_trip_status-Allowed trip_id (err e) w p =
      Ensures-raise_if (missing_user c) _ _ w (λ _. inl p) (λ _. raised (inl p))
  update_trip_status-Allowed trip_id (ok status) w p =
      Ensures-raise_if (missing_user c) _ _ w (λ _. inl p)
        (λ _.
          Ensures-raise_if (is_empty status) _ _ w (λ _. inl p)
            (λ _.
              Ensures-bind (accessible h c trip_id) _ w (accessible-Allowed trip_id w p)
                (λ trip w1 (allowed, p1).
                  Ensures-mono (Ensures-any (updated h trip_id (to_status status) w1))
                    (λ a w2 _. (trip, allowed)) (λ e w2 _. inr (trip, allowed)))
                (λ e w1 p1. inl p1)))
