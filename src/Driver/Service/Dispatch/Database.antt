-- ===== src/Driver/Service/Dispatch/Database.antt =====
-- The repositories of backend/internal/db/trip_repository.go and trip_assignment_repository.go meet
-- what the dispatch relies on, where the database behaves as documented.
use uitgo_monorepo.Base.{put, ℕ, String, ◌≡◌, Bool, true, false, Option, none, some, [], ◌∷◌, ◌==◌}
use uitgo_monorepo.Errors.{Error, trip_assignment_not_found}
use uitgo_monorepo.Base.Action.{err}
use uitgo_monorepo.Base.Action.Ensures.{Ensures}
use uitgo_monorepo.Trip.{Trip}
use uitgo_monorepo.Trip.Store.{TripModel, Runtime, TripStore, canonical}
use uitgo_monorepo.Trip.Repository.{to_trip}
use uitgo_monorepo.Driver.{TripAssignmentStatus}
use uitgo_monorepo.Driver.Assignments.{TripAssignmentModel, TripAssignmentStore, shown}
use uitgo_monorepo.Driver.Service.Dispatch.Laws.{DispatchView, Newest}

-- The rows of a state by their keys, and what the drivers' tables tell the dispatch.
pub record DispatchTables (W : Type 0) : Type 0 where
  pub trip : W → String → Option TripModel
  pub assignment : W → String → Option TripAssignmentModel
  pub online : W → String → Bool
  pub active : W → String → Option TripAssignmentModel

abbrev pub shown_trip : Option TripModel → Option Trip
shown_trip none = none
shown_trip (some m) = some (to_trip m)

abbrev pub view : {W : Type 0} → Runtime W → DispatchTables W → DispatchView W
view r t = record {
  name = λ id. canonical (r.parse_id id);
  trip = λ w k. shown_trip (t.trip w k);
  assignment = λ w k. shown (t.assignment w k);
  online = t.online;
  active = λ w k. shown (t.active w k);
}

module _ {W : Type 0} (t : DispatchTables W) where
  pub record Same (w w' : W) : Type 0 where
    pub trips : t.trip w' ≡ t.trip w
    pub assignments : t.assignment w' ≡ t.assignment w
    pub onlines : t.online w' ≡ t.online w
    pub actives : t.active w' ≡ t.active w

  -- An update of the trip `id`: one row was changed, or there was none.
  pub data TripUpdated (id : String) (f : TripModel → TripModel) (w w' : W) : ℕ → Type 0 where
    trip_hit :
        (m : TripModel)
        → t.trip w id ≡ some m
        → t.trip w' ≡ put (t.trip w) id (f m)
        → t.assignment w' ≡ t.assignment w
        → TripUpdated id f w w' 1
    trip_missed : Same w w' → TripUpdated id f w w' 0

  pub record Wrote (id : String) (m : TripAssignmentModel) (w w' : W) : Type 0 where
    pub trips : t.trip w' ≡ t.trip w
    pub assignments : t.assignment w' ≡ put (t.assignment w) id m

  -- An update of the assignment of the trip `id` where `ok` holds of it.
  pub data AssignmentUpdated (id : String) (ok : TripAssignmentModel → Bool)
      (f : TripAssignmentModel → TripAssignmentModel) (w w' : W) : ℕ → Type 0 where
    hit :
        (m : TripAssignmentModel)
        → t.assignment w id ≡ some m
        → ok m ≡ true
        → Wrote id (f m) w w'
        → AssignmentUpdated id ok f w w' 1
    missed :
        ((m : TripAssignmentModel) → t.assignment w id ≡ some m → ok m ≡ false)
        → Same w w'
        → AssignmentUpdated id ok f w w' 0

  abbrev pub Unless : Error → W → W → Type 0
  Unless e w w' = (¬ (e ≡ trip_assignment_not_found)) × Same w w'

  -- Documented behaviour of the database: a row stands under its own key, a query changes no row, a
  -- failed statement changes nothing, an update changes the rows that its condition names and
  -- counts them. No update of the program touches a key, and no error of the database is the
  -- program's own.
  pub record IsDatabase (r : Runtime W) (s : TripStore W) (a : TripAssignmentStore W) : Type 0 where
    pub key_law : (w : W) (k : String) (m : TripModel) → t.trip w k ≡ some m → m.id ≡ k
    pub assignment_key_law :
        (w : W) (k : String) (m : TripAssignmentModel) → t.assignment w k ≡ some m → m.trip_id ≡ k
    -- the table of the assignments under its index by driver, the row that changed last first
    pub active_law : (d : String) (w : W) → Newest (view r t) d w (shown (t.active w d))
    pub parse_law :
        (id : String) (e : Error) → r.parse_id id ≡ err e → ¬ (e ≡ trip_assignment_not_found)
    pub now_law : (w : W) → Same w (r.now w).1
    pub new_id_law : (w : W) → Same w (r.new_id w).1
    pub read_trip_law :
        (k : String) (w : W)
        → Ensures (λ o w'. (o ≡ t.trip w k) × Same w w') (λ e w'. Unless e w w') (s.read_trip k w)
    pub update_trip_law :
        (k : String) (f : TripModel → TripModel) (w : W)
        → ((m : TripModel) → (f m).id ≡ m.id)
        → Ensures (λ n w'. TripUpdated k f w w' n) (λ e w'. Unless e w w') (s.update_trip k f w)
    pub first_law :
        (k : String) (w : W)
        → Ensures (λ o w'. (o ≡ t.assignment w k) × Same w w') (λ e w'. Unless e w w') (a.first k w)
    pub create_law :
        (m : TripAssignmentModel) (w : W)
        → Ensures
            (λ m' w'.
              (m'.trip_id ≡ m.trip_id)
              × (m'.driver_id ≡ m.driver_id)
              × (m'.status ≡ m.status)
              × (m'.responded_at ≡ m.responded_at)
              × Wrote m.trip_id m' w w')
            (λ e w'. Unless e w w')
            (a.create m w)
    pub update_law :
        (k : String) (f : TripAssignmentModel → TripAssignmentModel) (w : W)
        → ((m : TripAssignmentModel) → (f m).trip_id ≡ m.trip_id)
        → Ensures
            (λ n w'. AssignmentUpdated k (λ _. true) f w w' n)
            (λ e w'. Unless e w w')
            (a.update k f w)
    pub update_of_law :
        (k d : String) (f : TripAssignmentModel → TripAssignmentModel) (w : W)
        → ((m : TripAssignmentModel) → (f m).trip_id ≡ m.trip_id)
        → Ensures
            (λ n w'. AssignmentUpdated k (λ m. m.driver_id == d) f w w' n)
            (λ e w'. Unless e w w')
            (a.update_of k d f w)
    pub first_with_law :
        (d : String) (w : W)
        → Ensures
            (λ o w'. (o ≡ t.active w d) × Same w w')
            (λ e w'. Unless e w w')
            (a.first_with d (TripAssignmentStatus.pending ∷ TripAssignmentStatus.accepted ∷ []) w)
