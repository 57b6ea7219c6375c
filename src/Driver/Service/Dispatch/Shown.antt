-- ===== src/Driver/Service/Dispatch/Shown.antt =====
-- Which drivers `SearchNearbyDrivers` of backend/internal/domain/driver_service.go shows.
use uitgo_monorepo.Base.{
  ℕ, String, ◌≡◌, refl, sym, ap, Bool, true, false, Option, none, some, List, [], ◌∷◌, eqb,
  if◌then◌else◌,
}
use uitgo_monorepo.Base.Int.{ℤ}
use uitgo_monorepo.Base.Text.{is_empty}
use uitgo_monorepo.Base.Action.{Result, ok, err, Action, ◌>>=◌}
use uitgo_monorepo.Errors.{Error, driver_not_found}
use uitgo_monorepo.Base.Action.Ensures.{
  Ensures, returned, raised, Ensures-any, Ensures-mono, Ensures-if, Ensures-bind, Ensures-attempt,
  Ensures-known,
}
use uitgo_monorepo.Trip.{Float64}
use uitgo_monorepo.Driver.{DriverStatus, DriverLocation, Driver, DriverLocationIndex}
use uitgo_monorepo.Driver.Service.{DriverService, has_online}
use uitgo_monorepo.Driver.Service.Dispatch.Search.{
  or_skip, shown_location, shown_driver, present, check_presence, online_driver, append_some,
  online_drivers, search_with, search_nearby_drivers,
}

-- The location of a driver as it is shown: the one that was found, with the id of the driver, and with
-- its time if it has one.
pub record IsPlace (l : DriverLocation) (id : String) (place : DriverLocation) : Type 0 where
  pub owner : place.driver_id ≡ id
  pub row : place.id ≡ l.id
  pub latitude : place.latitude ≡ l.latitude
  pub longitude : place.longitude ≡ l.longitude
  pub accuracy : place.accuracy ≡ l.accuracy
  pub heading : place.heading ≡ l.heading
  pub speed : place.speed ≡ l.speed
  pub distance : place.distance_meters ≡ l.distance_meters
  pub time : eqb l.recorded_at 0 ≡ false → place.recorded_at ≡ l.recorded_at

module _ {W : Type 0} (s : DriverService W) where
  -- A driver as a rider may see it, who was found by the location `l`.
  pub record IsShown (l : DriverLocation) (d : Driver) : Type 0 where
    pub driver : Driver
    pub asked : W
    pub found : W
    pub known : W
    pub by_id : s.drivers.find_by_id l.driver_id asked ≡ (ok driver, found)
    pub presence : s.drivers.get_availability driver.id found ≡ (ok d.status, known)
    pub online : has_online d.status ≡ true
    pub place : DriverLocation
    pub same : d ≡ record driver { status = d.status; location = some place }
    pub is_place : IsPlace l d.id place

  -- Some of the locations lead to the drivers shown, in their order.
  pub data Leads : List (Option DriverLocation) → List Driver → Type 0 where
    over : Leads [] []
    skips :
        {l : Option DriverLocation} {ls : List (Option DriverLocation)} {ds : List Driver}
        → Leads ls ds
        → Leads (l ∷ ls) ds
    shows :
        {l : DriverLocation} {d : Driver} {ls : List (Option DriverLocation)} {ds : List Driver}
        → IsShown l d
        → Leads ls ds
        → Leads (some l ∷ ls) (d ∷ ds)

  -- The drivers of a search that began at `w`: the locator was asked with its numbers.
  pub record Searched (lat lng radius : Float64) (limit : ℤ) (w : W) (ds : List Driver)
      : Type 0 where
    pub locator : DriverLocationIndex W
    pub locations : List (Option DriverLocation)
    pub located : W
    pub configured : s.locator ≡ some locator
    pub nearby : locator.nearby lat lng radius limit w ≡ (ok locations, located)
    pub leads : Leads locations ds

  abbrev AnyShown : Option DriverLocation → Option Driver → Type 0
  AnyShown l none = Unit
  AnyShown none (some d) = ⊥
  AnyShown (some l) (some d) = IsShown l d

  abbrev Shows : Option DriverLocation → Result (Option Driver) × W → Type 0
  Shows l = Ensures (λ o w'. AnyShown l o) (λ e w'. Unit {0})

  -- A driver that is not found is skipped, and any other error ends the search.
  or_skip-err :
      {A : Type 0} (l : Option DriverLocation) (e : Error) (f : Option A → Action W (Option Driver))
      (w : W)
      → Shows l (f none w)
      → Shows l ((or_skip s (err e) >>= f) w)
  unfolding or_skip
  or_skip-err l driver_not_found f w h = h
  or_skip-err l e f w h = raised tt

  shown_driver-Shows :
      (l : DriverLocation) (d : Driver) (st : Option DriverStatus) (w0 w1 w2 w : W)
      → s.drivers.find_by_id l.driver_id w0 ≡ (ok d, w1)
      → s.drivers.get_availability d.id w1 ≡ (ok st, w2)
      → Shows (some l) (shown_driver s l d st w)
  unfolding shown_driver shown_location
  shown_driver-Shows l d st w0 w1 w2 w found seen =
      Ensures-if (has_online st) _ _ w
        (λ there.
          Ensures-if (eqb l.recorded_at 0) _ _ w
            (λ zero_time. returned (shown there _ refl refl (λ timed. cc)))
            (λ has_time. returned (
              shown there _ refl refl
                (λ timed. if_false 0 l.recorded_at (eqb l.recorded_at 0) timed))))
        (λ away. returned tt)
    where
      if_false : (x y : ℕ) (b : Bool) → b ≡ false → (if b then x else y) ≡ y
      if_false x y true h = cc
      if_false x y false h = refl

      shown :
          has_online st ≡ true
          → (place : DriverLocation)
          → record l { driver_id = d.id; recorded_at = place.recorded_at } ≡ place
          → place.driver_id ≡ d.id
          → (eqb l.recorded_at 0 ≡ false → place.recorded_at ≡ l.recorded_at)
          → IsShown l (record d { status = st; location = some place })
      shown there place is owner time = record {
        driver = d;
        asked = w0;
        found = w1;
        known = w2;
        by_id = found;
        presence = seen;
        online = there;
        place = place;
        same = refl;
        is_place = record {
          owner = owner;
          row = ap (λ p. p.id) (sym is);
          latitude = ap (λ p. p.latitude) (sym is);
          longitude = ap (λ p. p.longitude) (sym is);
          accuracy = ap (λ p. p.accuracy) (sym is);
          heading = ap (λ p. p.heading) (sym is);
          speed = ap (λ p. p.speed) (sym is);
          distance = ap (λ p. p.distance_meters) (sym is);
          time = time;
        };
      }

  check_presence-Shows :
      (l : DriverLocation) (d : Driver) (w0 w1 : W)
      → s.drivers.find_by_id l.driver_id w0 ≡ (ok d, w1)
      → Shows (some l) (check_presence s l (some d) w1)
  unfolding check_presence present or_skip
  check_presence-Shows l d w0 w1 found =
      Ensures-attempt (s.drivers.get_availability d.id)
        (λ r. or_skip s r >>= λ st. present s l d st) w1
        (Ensures-known (Ensures-any (s.drivers.get_availability d.id w1)))
        (λ st w2 (_, seen). shown_driver-Shows l d st w0 w1 w2 w2 found seen)
        (λ e w2 _. skipped e w2)
    where
      skipped :
          (e : Error) (w : W) → Shows (some l) ((or_skip s (err e) >>= λ st. present s l d st) w)
      skipped e w = or_skip-err (some l) e (λ st. present s l d st) w (returned tt)

  online_driver-Shows : (l : Option DriverLocation) (w : W) → Shows l (online_driver s l w)
  unfolding online_driver or_skip
  online_driver-Shows none w = returned tt
  online_driver-Shows (some l) w =
      Ensures-if (is_empty l.driver_id) _ _ w (λ nobody. returned tt)
        (λ somebody.
          Ensures-attempt (s.drivers.find_by_id l.driver_id)
            (λ r. or_skip s r >>= λ d. check_presence s l d) w
            (Ensures-known (Ensures-any (s.drivers.find_by_id l.driver_id w)))
            (λ d w1 (_, found). check_presence-Shows l d w w1 found) (λ e w1 _. skipped e w1))
    where
      skipped :
          (e : Error) (w : W) → Shows (some l) ((or_skip s (err e) >>= λ d. check_presence s l d) w)
      skipped e w = or_skip-err (some l) e (λ d. check_presence s l d) w (returned tt)

  append-Leads :
      (l : Option DriverLocation) (ls : List (Option DriverLocation)) (o : Option Driver)
      (ds : List Driver)
      → AnyShown l o
      → Leads ls ds
      → Leads (l ∷ ls) (append_some o ds)
  append-Leads l ls none ds h rest = skips rest
  append-Leads none ls (some d) ds h rest = elim h [ ]
  append-Leads (some l) ls (some d) ds h rest = shows h rest

  online_drivers-Leads :
      (ls : List (Option DriverLocation)) (w : W)
      → Ensures (λ ds w'. Leads ls ds) (λ e w'. Unit {0}) (online_drivers s ls w)
  unfolding online_drivers
  online_drivers-Leads [] w = returned over
  online_drivers-Leads (l ∷ ls) w =
      Ensures-bind (online_driver s l) _ w (online_driver-Shows l w)
        (λ o w1 shown.
          Ensures-bind (online_drivers s ls) _ w1 (online_drivers-Leads ls w1)
            (λ ds w2 rest. returned (append-Leads l ls o ds shown rest)) (λ e w2 _. tt))
        (λ e w1 _. tt)

  search_with-Searched :
      (locator : Option (DriverLocationIndex W)) (lat lng radius : Float64) (limit : ℤ) (w : W)
      → s.locator ≡ locator
      → Ensures
          (λ ds w'. Searched lat lng radius limit w ds)
          (λ e w'. Unit {0})
          (search_with s locator lat lng radius limit w)
  unfolding search_with
  search_with-Searched none lat lng radius limit w is = raised tt
  search_with-Searched (some locator) lat lng radius limit w is =
      Ensures-bind (locator.nearby lat lng radius limit) _ w
        (Ensures-known (Ensures-any (locator.nearby lat lng radius limit w)))
        (λ ls w1 (_, at).
          Ensures-mono (online_drivers-Leads ls w1)
            (λ ds w2 leads. record {
              locator = locator;
              locations = ls;
              located = w1;
              configured = is;
              nearby = at;
              leads = leads;
            })
            (λ e w2 _. tt))
        (λ e w1 _. tt)

  -- Where SearchNearbyDrivers returns, each driver that it shows comes from a location that the
  -- locator found, in the order of the locator: it is the driver whom FindByID gave for the id of
  -- that location, with the status that GetAvailability gave for it, which is online, and its
  -- location is that one, of the driver itself, with the time of it unless that is zero.
  pub search_nearby_drivers-IsShown :
      (lat lng radius : Float64) (limit : ℤ) (w : W)
      → Ensures
          (λ ds w'. Searched lat lng radius limit w ds)
          (λ e w'. Unit {0})
          (search_nearby_drivers s lat lng radius limit w)
  unfolding search_nearby_drivers
  search_nearby_drivers-IsShown lat lng radius limit w =
      search_with-Searched s.locator lat lng radius limit w refl
