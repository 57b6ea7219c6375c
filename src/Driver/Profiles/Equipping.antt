-- ===== src/Driver/Profiles/Equipping.antt =====
-- The vehicle of a registration: `Register` of backend/internal/domain/driver_service.go saves it, or
-- deletes the new profile again.
use mathlib.Core.Path.{subst}
use uitgo_monorepo.Base.{String, ◌≡◌, sym, ap, ◌∙◌, Option, none, some, put, removed, removed-put}
use uitgo_monorepo.Base.Text.{trim_space, to_upper}
use uitgo_monorepo.Errors.{Error}
use uitgo_monorepo.Base.Action.{Result, ok, err, raise}
use uitgo_monorepo.Base.Action.Ensures.{
  Ensures, returned, raised, Ensures-mono, Ensures-attempt, Ensures-known,
}
use uitgo_monorepo.Trip.Store.{Runtime}
use uitgo_monorepo.Driver.{Vehicle, Driver}
use uitgo_monorepo.Driver.Service.{
  DriverService, save_new_vehicle, keep_or_rollback, sanitize_vehicle,
}
use uitgo_monorepo.Driver.Profiles.Rows.{DriverModel, VehicleModel, DriverStore, driver_row}
use uitgo_monorepo.Driver.Profiles.{driver_repository, delete_by_id, save_vehicle}
use uitgo_monorepo.Driver.Profiles.Laws.{ProfileTables, IsProfileStore}
use uitgo_monorepo.Driver.Profiles.Saving.{IsCopy, Saved, save_vehicle-Saved}
use uitgo_monorepo.Driver.Profiles.Creating.{NewProfile, delete_by_id-removed}

-- A row of the vehicle, its texts trimmed and its plate in upper case.
pub record IsClean (v : Vehicle) (m : VehicleModel) : Type 0 where
  pub make : m.make ≡ trim_space v.make
  pub model : m.model ≡ trim_space v.model
  pub color : m.color ≡ trim_space v.color
  pub year : m.year ≡ v.year
  pub plate_number : m.plate_number ≡ to_upper (trim_space v.plate_number)

module _ {W : Type 0} (t : ProfileTables W) where
  -- The vehicle of a registration is the driver's, and no other vehicle differs.
  pub data Equipped (driver_id : String) (w w' : W) : Option Vehicle → Type 0 where
    on_foot : t.vehicle w' ≡ t.vehicle w → Equipped driver_id w w' none
    driving :
        {v : Vehicle} (m : VehicleModel)
        → IsClean v m
        → t.vehicle w' ≡ put (t.vehicle w) driver_id m
        → Equipped driver_id w w' (some v)

module _ {W : Type 0} (r : Runtime W) (s : DriverStore W) where
  abbrev pub over : DriverService W → DriverService W
  over service = record service { drivers = driver_repository r s }

module _ {W : Type 0} (t : ProfileTables W) (r : Runtime W) (s : DriverStore W) where
  -- A registration that failed leaves no profile behind, unless deleting it failed too.
  pub data Unregistered (w w' : W) : Type 0 where
    unregistered : t.profile w' ≡ t.profile w → Unregistered w w'
    left_behind :
        (m : DriverModel) (e : Error) (u v : W)
        → t.profile w m.id ≡ none
        → t.profile w' ≡ put (t.profile w) m.id m
        → delete_by_id r s m.id u ≡ (err e, v)
        → Unregistered w w'

  -- A driver with its vehicle, after the profile was created.
  pub record Ready (d : Driver) (v : Option Vehicle) (id : String) (row : DriverModel) (w w' : W)
      : Type 0 where
    pub same_id : d.id ≡ id
    pub profiles : t.profile w' ≡ put (t.profile w) id row
    pub equipped : Equipped t id w w' v

module _ {W : Type 0} {t : ProfileTables W} {r : Runtime W} {s : DriverStore W}
    (laws : IsProfileStore t r s) where
  -- A vehicle that could not be saved: the new profile is deleted again.
  rolled_back :
      {d : Driver} {w w1 : W} (d' : Driver) (service : DriverService W) (e : Error) (w2 : W)
      → NewProfile t r d d' w w1
      → t.profile w2 ≡ t.profile w1
      → Ensures
          (λ _ w'. ⊥)
          (λ _ w'. Unregistered t r s w w')
          (keep_or_rollback (over r s service) d' (err e) w2)
  unfolding keep_or_rollback driver_repository
  rolled_back {d} d' service e w2 new kept =
      let row = driver_row d new.id new.uid new.now in
      Ensures-attempt (delete_by_id r s d'.id) (λ _. raise e) w2
        (subst
          (λ x.
            Ensures (λ _ w'. t.profile w' ≡ removed (t.profile w2) new.id)
              (λ e' w'. (t.profile w' ≡ t.profile w2) × (delete_by_id r s new.id w2 ≡ (err e', w')))
              (delete_by_id r s x w2))
          (sym new.shown)
          (Ensures-mono (Ensures-known (delete_by_id-removed laws new.id w2 new.named))
            (λ _ w3 (profiles, _). profiles) (λ e' w3 both. both)))
        (λ _ w3 profiles. raised (
          unregistered (
            profiles
            ∙ ap (λ f. removed f new.id) (kept ∙ new.profiles)
            ∙ removed-put _ new.id row new.fresh)))
        (λ e' w3 (profiles, failed).
          raised (left_behind row e' w2 w3 new.fresh (profiles ∙ kept ∙ new.profiles) failed))

  saved-IsClean :
      {v : Vehicle} (driver_id : String) {id : String} {m : VehicleModel}
      → IsCopy (sanitize_vehicle (record v { driver_id = driver_id })) id m
      → IsClean v m
  unfolding sanitize_vehicle
  saved-IsClean driver_id copy = record {
    make = copy.make;
    model = copy.model;
    color = copy.color;
    year = copy.year;
    plate_number = copy.plate_number;
  }

  same_key : {x id uid : String} → r.parse_id x ≡ ok uid → x ≡ id → r.parse_id id ≡ ok id → uid ≡ id
  same_key {id = id} {uid = uid} parsed same named =
      let e : ◌≡◌ {A = Result String} (ok uid) (ok id) = sym parsed ∙ ap r.parse_id same ∙ named in
      cc

  equipped_with :
      {d : Driver} {w w1 : W} (d' : Driver) (service : DriverService W) (v saved : Vehicle) (w2 : W)
      (new : NewProfile t r d d' w w1) (uid : String)
      → r.parse_id d'.id ≡ ok uid
      → Saved laws (sanitize_vehicle (record v { driver_id = d'.id })) uid w1 w2
      → Ensures
          (λ d'' w'. Ready t r s d'' (some v) new.id (driver_row d new.id new.uid new.now) w w')
          (λ _ w'. Unregistered t r s w w')
          (keep_or_rollback (over r s service) d' (ok saved) w2)
  unfolding keep_or_rollback
  equipped_with {w = w} d' service v saved w2 new uid parsed made = returned (record {
    same_id = new.shown;
    profiles = made.is.profiles ∙ new.profiles;
    equipped = driving made.row (saved-IsClean d'.id made.copy) (
        made.is.vehicles
        ∙ ap (λ f. put f uid made.row) new.vehicles
        ∙ ap (λ x. put (t.vehicle w) x made.row) (same_key parsed new.shown new.named));
  })

  pub save_new_vehicle-Ready :
      {d : Driver} {w w1 : W} (d' : Driver) (service : DriverService W) (v : Option Vehicle)
      (new : NewProfile t r d d' w w1)
      → Ensures
          (λ d'' w'. Ready t r s d'' v new.id (driver_row d new.id new.uid new.now) w w')
          (λ _ w'. Unregistered t r s w w')
          (save_new_vehicle (over r s service) d' v w1)
  unfolding save_new_vehicle driver_repository sanitize_vehicle
  save_new_vehicle-Ready d' service none new =
      returned
        (record { same_id = new.shown; profiles = new.profiles; equipped = on_foot new.vehicles })
  save_new_vehicle-Ready {w1 = w1} d' service (some v) new =
      let given = sanitize_vehicle (record v { driver_id = d'.id }) in
      Ensures-attempt (save_vehicle r s given) (λ x. keep_or_rollback (over r s service) d' x) w1
        (save_vehicle-Saved laws given w1)
        (λ saved w2 (uid, parsed, made). equipped_with d' service v saved w2 new uid parsed made)
        (λ e w2 kept.
          Ensures-mono (rolled_back d' service e w2 new kept) (λ _ w3 never. elim never [ ])
            (λ e' w3 done. done))
