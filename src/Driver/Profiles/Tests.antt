-- ===== src/Driver/Profiles/Tests.antt =====
-- A registration at a database in memory that has room for one driver.
use uitgo_monorepo.Base.{
  ℕ, String, ◌+◌, ◌≡◌, refl, sym, ap, ◌∙◌, Bool, true, false, Option, none, some, ◌==◌, eq_iff,
  eq_refl, put, removed, if◌then◌else◌, Bool-cases, inl, inr,
}
use uitgo_monorepo.Base.Int.{pos}
use uitgo_monorepo.Errors.{duplicated_key, trip_not_found, trip_assignment_not_found}
use uitgo_monorepo.Base.Action.{ok, err, Action, pure, raise}
use uitgo_monorepo.Base.Action.Ensures.{Ensures, returned, raised}
use uitgo_monorepo.Trip.Store.{Runtime}
use uitgo_monorepo.Driver.Service.{DriverService, DriverRegistrationInput, register}
use uitgo_monorepo.Driver.Profiles.Rows.{DriverModel, VehicleModel, DriverStore}
use uitgo_monorepo.Driver.Profiles.Laws.{
  ProfileTables, Same, Found, found_one, found_none, Created, Deleted, deleted_one, deleted_none,
  VehicleUpdated, vehicle_hit, vehicle_missed, IsProfileStore,
}
use uitgo_monorepo.Driver.Profiles.Equipping.{over, Unregistered}
use uitgo_monorepo.Driver.Profiles.Registering.{Registered, register-Registered}
use uitgo_monorepo.Driver.Profiles.{driver_repository}

record Garage : Type 0 where
  driver : Option DriverModel
  vehicles : String → Option VehicleModel
  clock : ℕ

unfoldable profile_at : Option DriverModel → String → Option DriverModel
profile_at none k = none
profile_at (some m) k = if m.id == k then some m else none

abbrev tables : ProfileTables Garage
tables = record { profile = λ w. profile_at w.driver; vehicle = λ w. w.vehicles }

abbrev garage_runtime : Runtime Garage
garage_runtime = record {
  parse_id = λ id. ok id;
  new_id = λ w. ("6ba7b810-9dad-11d1-80b4-00c04fd430c8", w);
  now = λ w. (w.clock + 1, record w { clock = w.clock + 1 });
}

unfoldable driver_of : Option DriverModel → String → Option (DriverModel × Option VehicleModel)
driver_of none user_id = none
driver_of (some m) user_id = if m.user_id == user_id then some (m, none) else none

unfoldable insert : Option DriverModel → DriverModel → Action Garage DriverModel
insert none m w = (ok m, record w { driver = some m })
insert (some old) m w = (err duplicated_key, w)

unfoldable delete : Option DriverModel → String → Action Garage ℕ
delete none id w = (ok 0, w)
delete (some m) id w = if m.id == id then (ok 1, record w { driver = none }) else (ok 0, w)

unfoldable change : Option VehicleModel → String → (VehicleModel → VehicleModel) → Action Garage ℕ
change none id f w = (ok 0, w)
change (some m) id f w = (ok 1, record w { vehicles = put w.vehicles id (f m) })

unfoldable store : DriverStore Garage
unfolding driver_of insert delete change
store = record {
  is_unique_violation = λ e. false;
  create_driver = λ m w. insert w.driver m w;
  first_driver = λ id w. (ok (driver_of w.driver id), w);
  first_driver_of = λ user_id w. (ok (driver_of w.driver user_id), w);
  delete_driver = λ id w. delete w.driver id w;
  update_driver = λ id f. pure 0;
  first_available = λ status sts. pure none;
  first_vehicle = λ id w. (ok (w.vehicles id), w);
  create_vehicle = λ m w. (ok m, record w { vehicles = put w.vehicles m.driver_id m });
  update_vehicle = λ id f w. change (w.vehicles id) id f w;
  upsert_status = λ m. pure tt;
  first_status = λ id. pure none;
  create_location = λ m. pure tt;
  last_location = λ id. pure none;
}

abbrev garage : Option DriverModel → (String → Option VehicleModel) → ℕ → Garage
garage o vs n = record { driver = o; vehicles = vs; clock = n }

row-Found :
    (b : Bool) (m : DriverModel) (user_id : String) (vs : String → Option VehicleModel) (n : ℕ)
    → (m.user_id == user_id) ≡ b
    → Found tables user_id (garage (some m) vs n) (if b then some (m, none) else none)
unfolding profile_at
row-Found true m user_id vs n is =
    found_one m none (rw (eq_refl m.id) refl) ((eq_iff m.user_id user_id).0 is)
row-Found false m user_id vs n is = found_none (record {
  nobody = λ k m' there same.
      let e : (m.user_id == user_id) ≡ true =
        (eq_iff m.user_id user_id).1 (elim (Bool-cases (m.id == k)) [
          | inl hit ↦
              ap (λ (x : DriverModel). x.user_id) (same_row m m' (m.id == k) hit there) ∙ same
          | inr miss ↦ absurd_row m m' (m.id == k) miss there
        ]) in
      cc;
})
  where
    same_row :
        (m m' : DriverModel) (b : Bool) → b ≡ true → (if b then some m else none) ≡ some m' → m ≡ m'
    same_row m m' true h there = cc
    same_row m m' false h there = cc

    absurd_row :
        {A : Type 0} (m m' : DriverModel) (b : Bool)
        → b ≡ false
        → (if b then some m else none) ≡ some m'
        → A
    absurd_row m m' true h there = cc
    absurd_row m m' false h there = cc

driver_of-Found :
    (user_id : String) (o : Option DriverModel) (vs : String → Option VehicleModel) (n : ℕ)
    → Found tables user_id (garage o vs n) (driver_of o user_id)
unfolding driver_of profile_at
driver_of-Found user_id none vs n = found_none (record { nobody = λ k m there same. cc })
driver_of-Found user_id (some m) vs n = row-Found (m.user_id == user_id) m user_id vs n refl

insert-Created :
    (m : DriverModel) (o : Option DriverModel) (vs : String → Option VehicleModel) (n : ℕ)
    → Ensures
        (λ m' w'. Created tables m m' (garage o vs n) w')
        (λ _ w'. Same tables (garage o vs n) w')
        (insert o m (garage o vs n))
unfolding insert profile_at
insert-Created m none vs n =
    returned (record { is = refl; fresh = refl; profiles = refl; vehicles = refl })
insert-Created m (some old) vs n = raised (record { profiles = refl; vehicles = refl })

emptied :
    (b : Bool) (m : DriverModel) (id : String)
    → (m.id == id) ≡ b
    → b ≡ true
    → profile_at none ≡ removed (profile_at (some m)) id
unfolding profile_at
emptied b m id is hit = λ i k. cell (id == k) (m.id == k) (λ miss there. no_other k miss there) i
  where
    cell :
        (x y : Bool)
        → (x ≡ false → y ≡ true → ⊥)
        → ◌≡◌ {A = Option DriverModel} none (if x then none else if y then some m else none)
    cell true y apart = refl
    cell false true apart = elim (apart refl refl) [ ]
    cell false false apart = refl

    no_other : (k : String) → (id == k) ≡ false → (m.id == k) ≡ true → ⊥
    no_other k miss there =
        let a : m.id ≡ k = (eq_iff m.id k).0 there in
        let c : m.id ≡ id = (eq_iff m.id id).0 (is ∙ hit) in
        let e : (id == k) ≡ true = (eq_iff id k).1 (sym c ∙ a) in cc

delete-Deleted :
    (id : String) (o : Option DriverModel) (vs : String → Option VehicleModel) (n : ℕ)
    → Ensures
        (λ k w'. Deleted tables id (garage o vs n) w' k)
        (λ _ w'. Same tables (garage o vs n) w')
        (delete o id (garage o vs n))
unfolding delete
delete-Deleted id none vs n = returned (deleted_none (record { profiles = refl; vehicles = refl }))
delete-Deleted id (some m) vs n = gone (m.id == id) refl
  where
    gone :
        (b : Bool)
        → (m.id == id) ≡ b
        → Ensures
            (λ k w'. Deleted tables id (garage (some m) vs n) w' k)
            (λ _ w'. Same tables (garage (some m) vs n) w')
            (if b then (ok 1, garage none vs n) else (ok 0, garage (some m) vs n))
    gone true is = returned (deleted_one (emptied true m id is refl))
    gone false is = returned (deleted_none (record { profiles = refl; vehicles = refl }))

change-VehicleUpdated :
    (id : String) (f : VehicleModel → VehicleModel) (o : Option VehicleModel) (w : Garage)
    → w.vehicles id ≡ o
    → Ensures
        (λ k w'. VehicleUpdated tables id f w w' k)
        (λ _ w'. Same tables w w')
        (change o id f w)
unfolding change
change-VehicleUpdated id f none w is =
    returned (vehicle_missed is (record { profiles = refl; vehicles = refl }))
change-VehicleUpdated id f (some m) w is =
    returned (vehicle_hit m is (record { profiles = refl; vehicles = refl }))

store-IsProfileStore : IsProfileStore tables garage_runtime store
unfolding store
store-IsProfileStore = record {
  now_law = λ w. record { profiles = refl; vehicles = refl };
  new_id_law = λ w. (record { profiles = refl; vehicles = refl }, refl);
  first_driver_of_law = λ user_id w. returned (
    driver_of-Found user_id w.driver w.vehicles w.clock,
    record { profiles = refl; vehicles = refl },
  );
  create_driver_law = λ m w. insert-Created m w.driver w.vehicles w.clock;
  delete_driver_law = λ id w. delete-Deleted id w.driver w.vehicles w.clock;
  first_vehicle_law = λ id w. returned (refl, record { profiles = refl; vehicles = refl });
  create_vehicle_law = λ m w. returned (record { profiles = refl; vehicles = refl });
  update_vehicle_law = λ id f w. change-VehicleUpdated id f (w.vehicles id) w refl;
  upsert_status_law = λ m w. returned (record { profiles = refl; vehicles = refl });
}

abbrev application : DriverRegistrationInput
application = record {
  full_name = " An ";
  phone = "1";
  license_number = "B2";
  avatar_url = none;
  vehicle = some (record {
    id = "";
    driver_id = "";
    make = "Honda ";
    model = "Wave";
    color = "red";
    year = pos 2020;
    plate_number = "59a1";
    created_at = 0;
    updated_at = 0;
  });
}

abbrev service : DriverService Garage
service = record {
  drivers = driver_repository garage_runtime store;
  assignments = record {
    assign = λ trip_id driver_id. raise trip_assignment_not_found;
    update_status = λ trip_id driver_id status at. raise trip_assignment_not_found;
    get_by_trip_id = λ trip_id. pure none;
    find_active_by_driver = λ driver_id. pure none;
    clear = λ trip_id. pure tt;
    clear_all = pure tt;
  };
  trips = record {
    get_trip = λ id. raise trip_not_found;
    update_trip_status = λ id status. raise trip_not_found;
    set_trip_driver = λ id driver_id. raise trip_not_found;
  };
  notifier = none;
  locator = none;
  now = garage_runtime.now;
}

abbrev closed : Garage
closed = garage none (λ k. none) 3

register-Registered_example :
    Ensures
      (λ d w'. Registered tables garage_runtime store "u" application d closed w')
      (λ e w'. Unregistered tables garage_runtime store closed w')
      (register (over garage_runtime store service) "u" application closed)
register-Registered_example =
    register-Registered store-IsProfileStore service "u" application closed
