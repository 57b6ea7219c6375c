-- ===== src/Driver/Service/Dispatch/Repositories.antt =====
-- Each operation of backend/internal/db/trip_repository.go and trip_assignment_repository.go that the
-- dispatch uses, on every branch.
use mathlib.Core.Path.{fun_ext, subst}
use uitgo_monorepo.Base.{
  put, ℕ, String, ◌≡◌, refl, sym, ap, ◌∙◌, Bool, true, false, Option, none, some, ◌==◌, eqb,
  if◌then◌else◌,
}
use uitgo_monorepo.Base.Text.{is_empty}
use uitgo_monorepo.Errors.{Error, trip_not_found}
use uitgo_monorepo.Base.Action.{checked, Result, ok, err, Action, pure, raise_if, ◌>>=◌}
use uitgo_monorepo.Base.Action.Ensures.{Ensures, returned, raised, Ensures-bind}
use uitgo_monorepo.Trip.{TripStatus, Trip}
use uitgo_monorepo.Trip.Store.{TripModel, Runtime, TripStore, canonical}
use uitgo_monorepo.Trip.Repository.{
  to_trip, found_trip, get_trip, updated_row, driver_column, update_trip_status, set_trip_driver,
}
use uitgo_monorepo.Driver.Assignments.{
  TripAssignmentModel, TripAssignmentStore, to_trip_assignment, shown,
}
use uitgo_monorepo.Driver.Service.Dispatch.Laws.{
  Untouched, TripIs, AssignmentIs, driver_value, Reads,
}
use uitgo_monorepo.Driver.Service.Dispatch.Database.{
  DispatchTables, view, shown_trip, Same, TripUpdated, trip_hit, trip_missed, Wrote, IsDatabase,
}

-- An id is parsed: the rest of the call has its canonical form.
pub Ensures-parse :
    {W A : Type 0} {P : A → W → Type 0} {Q : Error → W → Type 0} (x : Result String)
    (k : String → Action W A) (w : W)
    → (x ≡ ok (canonical x) → Ensures P Q (k (canonical x) w))
    → ((e : Error) → x ≡ err e → Q e w)
    → Ensures P Q ((checked x >>= k) w)
Ensures-parse (ok s) k w go stop = go refl
Ensures-parse (err e) k w go stop = raised (stop e refl)

column :
    {W A : Type 0} {P : A → W → Type 0} {Q : Error → W → Type 0} (b : Bool) (x : Result String)
    (d : String) (k : Option String → Action W A) (w : W)
    → Ensures P Q (k (if b then none else some d) w)
    → ((e : Error) → Q e w)
    → Ensures P Q (((if b then pure none else (checked x >>= λ uid. pure (some d))) >>= k) w)
column true x d k w go stop = go
column false (ok uid) d k w go stop = go
column false (err e) d k w go stop = raised (stop e)

pub shown_put :
    (b : Bool) (m : TripAssignmentModel) (o : Option TripAssignmentModel)
    → shown (if b then some m else o) ≡ (if b then some (to_trip_assignment m) else shown o)
shown_put true m o = refl
shown_put false m o = refl

pub shown_trip_put :
    (b : Bool) (m : TripModel) (o : Option TripModel)
    → shown_trip (if b then some m else o) ≡ (if b then some (to_trip m) else shown_trip o)
shown_trip_put true m o = refl
shown_trip_put false m o = refl

module _ {W : Type 0} {t : DispatchTables W} where
  pub Same-trans : {a b c : W} → Same t a b → Same t b c → Same t a c
  Same-trans h k = record {
    trips = k.trips ∙ h.trips;
    assignments = k.assignments ∙ h.assignments;
    onlines = k.onlines ∙ h.onlines;
    actives = k.actives ∙ h.actives;
  }

  pub Same-refl : (w : W) → Same t w w
  Same-refl w = record { trips = refl; assignments = refl; onlines = refl; actives = refl }

  pub Wrote-after :
      {id : String} {m : TripAssignmentModel} {a b c : W}
      → Same t a b
      → Wrote t id m b c
      → Wrote t id m a c
  Wrote-after {id} {m} h k = record {
    trips = k.trips ∙ h.trips;
    assignments = k.assignments ∙ ap (λ f. put f id m) h.assignments;
  }

module _ {W : Type 0} (t : DispatchTables W) (r : Runtime W) where
  pub Untouched-Same : {w w' : W} → Same t w w' → Untouched (view r t) w w'
  Untouched-Same h = record {
    trips = ap (λ f k. shown_trip (f k)) h.trips;
    assignments = ap (λ f k. shown (f k)) h.assignments;
    onlines = h.onlines;
    actives = ap (λ f k. shown (f k)) h.actives;
  }

  pub AssignmentIs-Wrote :
      {id : String} {m : TripAssignmentModel} {w w' : W}
      → Wrote t id m w w'
      → AssignmentIs (view r t) id (to_trip_assignment m) w w'
  AssignmentIs-Wrote {id} {m} {w} h = record {
    trips = ap (λ f k. shown_trip (f k)) h.trips;
    assignments =
        ap (λ f k. shown (f k)) h.assignments
        ∙ fun_ext (λ j. shown_put (id == j) m (t.assignment w j));
  }

  TripIs-put :
      {id : String} {m : TripModel} {w w' : W}
      → t.trip w' ≡ put (t.trip w) id m
      → t.assignment w' ≡ t.assignment w
      → TripIs (view r t) id (to_trip m) w w'
  TripIs-put {id} {m} {w} h k = record {
    trips = ap (λ f k. shown_trip (f k)) h ∙ fun_ext (λ j. shown_trip_put (id == j) m (t.trip w j));
    assignments = ap (λ f k. shown (f k)) k;
  }

module _ {W : Type 0} {t : DispatchTables W} {r : Runtime W} {s : TripStore W}
    {a : TripAssignmentStore W} (laws : IsDatabase t r s a) where
  found_trip-Ensures :
      (o : Option TripModel) (k : String) (w w' : W)
      → o ≡ t.trip w k
      → Same t w w'
      → Ensures
          (λ x w'. (((view r t).trip w k ≡ some x) × (x.id ≡ k)) × Untouched (view r t) w w')
          (λ e w'. Untouched (view r t) w w')
          (found_trip r s o w')
  unfolding found_trip
  found_trip-Ensures none k w w' is same = raised (Untouched-Same t r same)
  found_trip-Ensures (some m) k w w' is same =
      returned ((ap shown_trip (sym is), laws.key_law w k m (sym is)), Untouched-Same t r same)

  pub get_trip-Reads :
      (id : String) (w : W)
      → Reads
          (view r t)
          (λ x w. ((view r t).trip w ((view r t).name id) ≡ some x) × (x.id ≡ (view r t).name id))
          w
          (get_trip r s id)
  unfolding get_trip
  get_trip-Reads id w =
      Ensures-parse (r.parse_id id) _ w
        (λ is.
          Ensures-bind (s.read_trip (canonical (r.parse_id id))) _ w
            (laws.read_trip_law (canonical (r.parse_id id)) w)
            (λ o w1 (found, same). found_trip-Ensures o (canonical (r.parse_id id)) w w1 found same)
            (λ e w1 (_, same). Untouched-Same t r same))
        (λ e is. Untouched-Same t r (Same-refl w))

  -- What an update of the columns of a trip comes to.
  TripChanged : String → (ℕ → Trip → Trip) → W → W → Type 0
  TripChanged k f w w' =
      (x : Trip) × (now : ℕ) × ((view r t).trip w k ≡ some x) × TripIs (view r t) k (f now x) w w'

  checked_count :
      (k : String) (f : TripModel → TripModel) (g : ℕ → Trip → Trip) (now n : ℕ) (w w1 w2 : W)
      → ((m : TripModel) → to_trip (f m) ≡ g now (to_trip m))
      → Same t w w1
      → TripUpdated t k f w1 w2 n
      → Ensures
          (λ u w'. TripChanged k g w w')
          (λ e w'. Untouched (view r t) w w')
          (raise_if (eqb n 0) trip_not_found w2)
  unfolding TripChanged
  checked_count k f g now n w w1 w2 same_row same (trip_hit m known trips assignments) = returned (
    to_trip m,
    now,
    ap shown_trip (sym (ap (λ f. f k) same.trips) ∙ known),
    subst (λ x. TripIs (view r t) k x w w2) (same_row m)
        (TripIs-put t r (trips ∙ ap (λ h. put h k (f m)) same.trips)
          (assignments ∙ same.assignments)),
  )
  checked_count k f g now n w w1 w2 same_row same (trip_missed same2) =
      raised (Untouched-Same t r (Same-trans same same2))

  updated_row-Ensures :
      (k : String) (f : TripModel → TripModel) (g : ℕ → Trip → Trip) (now : ℕ) (w w1 : W)
      → ((m : TripModel) → (f m).id ≡ m.id)
      → ((m : TripModel) → to_trip (f m) ≡ g now (to_trip m))
      → Same t w w1
      → Ensures
          (λ u w'. TripChanged k g w w')
          (λ e w'. Untouched (view r t) w w')
          (updated_row r s k f w1)
  unfolding updated_row
  updated_row-Ensures k f g now w w1 keeps same_row same =
      Ensures-bind (s.update_trip k f) _ w1 (laws.update_trip_law k f w1 keeps)
        (λ n w2 h. checked_count k f g now n w w1 w2 same_row same h)
        (λ e w2 (_, same2). Untouched-Same t r (Same-trans same same2))

  pub update_trip_status-TripIs :
      (id : String) (st : TripStatus) (w : W)
      → Ensures
          (λ u w'.
            (x : Trip) × (now : ℕ) × ((view r t).trip w ((view r t).name id) ≡ some x)
            × TripIs
                (view r t)
                ((view r t).name id)
                (record x { status = st; updated_at = now })
                w
                w')
          (λ e w'. Untouched (view r t) w w')
          (update_trip_status r s id st w)
  unfolding update_trip_status TripChanged
  update_trip_status-TripIs id st w =
      Ensures-parse (r.parse_id id) _ w
        (λ is.
          updated_row-Ensures (canonical (r.parse_id id)) _
            (λ now x. record x { status = st; updated_at = now }) (r.now w).0 w (r.now w).1
            (λ m. refl) (λ m. refl) (laws.now_law w))
        (λ e is. Untouched-Same t r (Same-refl w))

  driver_column-Ensures :
      {A : Type 0} {P : A → W → Type 0} {Q : Error → W → Type 0} (d : Option String)
      (k : Option String → Action W A) (w : W)
      → Ensures P Q (k (driver_value d) w)
      → ((e : Error) → Q e w)
      → Ensures P Q ((driver_column r s d >>= k) w)
  unfolding driver_column
  driver_column-Ensures none k w go stop = go
  driver_column-Ensures (some d) k w go stop = column (is_empty d) (r.parse_id d) d k w go stop

  pub set_trip_driver-TripIs :
      (id : String) (d : Option String) (w : W)
      → Ensures
          (λ u w'.
            (x : Trip) × (now : ℕ) × ((view r t).trip w ((view r t).name id) ≡ some x)
            × TripIs
                (view r t)
                ((view r t).name id)
                (record x { driver_id = driver_value d; updated_at = now })
                w
                w')
          (λ e w'. Untouched (view r t) w w')
          (set_trip_driver r s id d w)
  unfolding set_trip_driver TripChanged
  set_trip_driver-TripIs id d w =
      Ensures-parse (r.parse_id id) _ w
        (λ is.
          driver_column-Ensures d _ w
            (updated_row-Ensures (canonical (r.parse_id id)) _
              (λ now x. record x { driver_id = driver_value d; updated_at = now }) (r.now w).0 w
              (r.now w).1 (λ m. refl) (λ m. refl) (laws.now_law w))
            (λ e. Untouched-Same t r (Same-refl w)))
        (λ e is. Untouched-Same t r (Same-refl w))
