-- ===== src/Driver/Memory/Laws.antt =====
-- The database in memory meets the laws that the dispatch and the lists of trips rely on.
use mathlib.Core.Path.{subst}
use uitgo_monorepo.Base.{
  ℕ, String, ◌≡◌, refl, sym, ap, ◌∙◌, Bool, true, false, Option, none, some, List, [], ◌∷◌, ◌==◌,
  eq_iff, arith, if◌then◌else◌, take, keep, All, length, length-take, suc, zero, Bool-cases, inl,
  inr,
}
use uitgo_monorepo.Base.Int.{ℤ, pos, negsuc, pos_part, ◌≤ℤ◌}
use uitgo_monorepo.Errors.{trip_assignment_not_found}
use uitgo_monorepo.Base.Action.Ensures.{Ensures, returned, Ensures-if}
use uitgo_monorepo.Trip.Store.{TripModel}
use uitgo_monorepo.Trip.Listing.{IsQueried}
use uitgo_monorepo.Driver.Assignments.{TripAssignmentModel}
use uitgo_monorepo.Driver.Service.{has_online}
use uitgo_monorepo.Driver.Service.Dispatch.Laws.{IsDispatch, Untouched}
use uitgo_monorepo.Driver.Service.Dispatch.Database.{
  view, Same, TripUpdated, trip_hit, trip_missed, AssignmentUpdated, hit, missed, IsDatabase,
}
use uitgo_monorepo.Driver.Service.Dispatch.Wiring.{IsApart, wired-IsDispatch}
use uitgo_monorepo.Driver.Memory.Active.{active_of-Newest}
use uitgo_monorepo.Driver.Memory.{
  Memory, trip_of, assignment_of, is_in, tables, runtime, update_trip, update_assignment,
  trip_store, assignment_store, status_in, drivers, service,
}

trip_of-key :
    (rows : List TripModel) (k : String) (m : TripModel) → trip_of rows k ≡ some m → m.id ≡ k
unfolding trip_of
trip_of-key [] k m e = cc
trip_of-key (r ∷ rows) k m e = ground (arith, eq_iff r.id k, trip_of-key rows k m)

assignment_of-key :
    (rows : List TripAssignmentModel) (k : String) (m : TripAssignmentModel)
    → assignment_of rows k ≡ some m
    → m.trip_id ≡ k
unfolding assignment_of
assignment_of-key [] k m e = cc
assignment_of-key (r ∷ rows) k m e = ground (arith, eq_iff r.trip_id k, assignment_of-key rows k m)

same : (w : Memory) → Same tables w w
same w = record { trips = refl; assignments = refl; onlines = refl; actives = refl }

update_trip-law :
    (k : String) (f : TripModel → TripModel) (o : Option TripModel) (w : Memory)
    → ((m : TripModel) → (f m).id ≡ m.id)
    → o ≡ trip_of w.trips k
    → Ensures
        (λ n w'. TripUpdated tables k f w w' n)
        (λ e w'. (¬ (e ≡ trip_assignment_not_found)) × Same tables w w')
        (update_trip f o w)
unfolding update_trip trip_of
update_trip-law k f none w keeps is = returned (trip_missed (same w))
update_trip-law k f (some m) w keeps is =
    let key : (f m).id ≡ k = keeps m ∙ trip_of-key w.trips k m (sym is) in
    returned
      (trip_hit m (sym is) (ap (λ i j. if i == j then some (f m) else trip_of w.trips j) key) refl)

update_assignment-law :
    (k : String) (good : TripAssignmentModel → Bool) (f : TripAssignmentModel → TripAssignmentModel)
    (o : Option TripAssignmentModel) (w : Memory)
    → ((m : TripAssignmentModel) → (f m).trip_id ≡ m.trip_id)
    → o ≡ assignment_of w.assignments k
    → Ensures
        (λ n w'. AssignmentUpdated tables k good f w w' n)
        (λ e w'. (¬ (e ≡ trip_assignment_not_found)) × Same tables w w')
        (update_assignment good f o w)
unfolding update_assignment assignment_of
update_assignment-law k good f none w keeps is = returned (missed (λ m e. cc) (same w))
update_assignment-law k good f (some m) w keeps is =
    Ensures-if (good m) _ _ w
      (λ yes.
        let key : (f m).trip_id ≡ k = keeps m ∙ assignment_of-key w.assignments k m (sym is) in
        returned (
          hit m (sym is) yes (record {
            trips = refl;
            assignments =
                ap (λ i j. if i == j then some (f m) else assignment_of w.assignments j) key;
          })))
      (λ not_so.
        returned
          (missed (λ m' e. let em : m ≡ m' = cc in subst (λ x. good x ≡ false) em not_so) (same w)))

pub database : IsDatabase tables runtime trip_store assignment_store
unfolding trip_store assignment_store assignment_of
database = record {
  key_law = λ w k m e. trip_of-key w.trips k m e;
  assignment_key_law = λ w k m e. assignment_of-key w.assignments k m e;
  active_law = active_of-Newest;
  parse_law = λ id e is. cc;
  now_law = λ w. record { trips = refl; assignments = refl; onlines = refl; actives = refl };
  new_id_law = λ w. same w;
  read_trip_law = λ k w. returned (refl, same w);
  update_trip_law = λ k f w keeps. update_trip-law k f (trip_of w.trips k) w keeps refl;
  first_law = λ k w. returned (refl, same w);
  create_law =
      λ m w. returned (refl, refl, refl, refl, record { trips = refl; assignments = refl });
  update_law = λ k f w keeps.
      update_assignment-law k (λ _. true) f (assignment_of w.assignments k) w keeps refl;
  update_of_law = λ k d f w keeps.
      update_assignment-law k (λ m. m.driver_id == d) f (assignment_of w.assignments k) w keeps
        refl;
  first_with_law = λ d w. returned (refl, same w);
}

untouched : (w : Memory) → Untouched (view runtime tables) w w
untouched w = record { trips = refl; assignments = refl; onlines = refl; actives = refl }

is_online_in : (ys : List String) (id : String) → has_online (some (status_in ys id)) ≡ is_in ys id
unfolding status_in
is_online_in ys id = ground arith

pub apart : IsApart runtime tables drivers none
unfolding drivers
apart = record {
  find_by_id_law = λ id w. returned (tt, untouched w);
  get_availability_law = λ id w. returned (is_online_in w.onlines id, untouched w);
  find_available_law = λ w. returned (tt, untouched w);
  latest_location_law = λ id w. returned (tt, untouched w);
  rider_law = λ n x st w is. cc;
  driver_law = λ n d x w is. cc;
}

pub dispatch : IsDispatch (view runtime tables) service
dispatch = wired-IsDispatch database apart

kept-All : (p : TripModel → Bool) (rows : List TripModel) → All (λ m. p m ≡ true) (keep p rows)
kept-All p [] = tt
kept-All p (m ∷ rows) = elim (Bool-cases (p m)) [
  | inl is ↦ rw is (is, kept-All p rows)
  | inr not_so ↦ rw not_so (kept-All p rows)
]

taken-All :
    (P : TripModel → Type 0) (n : ℕ) (rows : List TripModel) → All P rows → All P (take n rows)
taken-All P zero rows h = tt
taken-All P (suc n) [] h = tt
taken-All P (suc n) (m ∷ rows) h = (h.0, taken-All P n rows h.1)

taken-few :
    (limit : ℤ) (rows : List TripModel)
    → pos 1 ≤ℤ limit
    → pos (length (take (pos_part limit) rows)) ≤ℤ limit
taken-few (pos n) rows h = omega (arith, length-take n rows)
taken-few (negsuc n) rows h = omega arith

pub queries : IsQueried trip_store
unfolding trip_store
queries = record {
  read_trips_law = λ p limit offset w some_rows from. returned (
    taken-All (λ m. p m ≡ true) (pos_part limit) (keep p w.trips) (kept-All p w.trips),
    taken-few limit (keep p w.trips) some_rows,
  );
}
