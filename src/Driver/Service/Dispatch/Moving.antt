-- ===== src/Driver/Service/Dispatch/Moving.antt =====
-- `UpdateTripStatus` of backend/internal/domain/driver_service.go as a whole.
use mathlib.Core.Path.{subst}
use uitgo_monorepo.Base.{String, ◌≡◌, refl, sym, ap, ◌∙◌, Bool, true, false, not, some, arith}
use uitgo_monorepo.Errors.{invalid_status}
use uitgo_monorepo.Base.Action.{pure, ◌>>=◌, ◌>>◌}
use uitgo_monorepo.Base.Action.Ensures.{Ensures, returned, Ensures-raise_if, Ensures-bind}
use uitgo_monorepo.Trip.{TripStatus, Trip}
use uitgo_monorepo.Driver.{TripAssignmentStatus, TripAssignment}
use uitgo_monorepo.Driver.Service.{DriverService}
use uitgo_monorepo.Driver.Service.Dispatch.{
  is_final, is_driver_target, allowed_driver_transition, claimed, own_assignment, promote,
  free_driver, tell_rider, update_trip_status,
}
use uitgo_monorepo.Driver.Service.Dispatch.Confined.{
  Confined, Confined-trans, Confined-Untouched, put-same, put-other,
}
use uitgo_monorepo.Driver.Service.Dispatch.Laws.{DispatchView, IsDispatch}
use uitgo_monorepo.Driver.Service.Dispatch.Progress.{
  IsDrivenBy, Moved, claimed_rows, own_assignment-Holds, promote-accepts, free_driver-trips,
  tell_rider-Untouched,
}

not-false : (b : Bool) → not b ≡ false → b ≡ true
not-false b h = ground arith

module _ {W : Type 0} {v : DispatchView W} {s : DriverService W} (laws : IsDispatch v s) where
  -- The trip and its assignment before the status is written.
  record Set (id driver_id : String) (next : TripStatus) (w0 w : W) : Type 0 where
    confined : Confined v id w0 w
    old : Trip
    known : v.trip w0 id ≡ some old
    cur : Trip
    now : v.trip w id ≡ some cur
    driven : IsDrivenBy driver_id cur
    asked : is_driver_target next ≡ true
    allowed : allowed_driver_transition old.status next ≡ true
    assigned :
        is_final next ≡ false
        → (a : TripAssignment) × (v.assignment w id ≡ some a)
          × (a.status ≡ TripAssignmentStatus.accepted)

  some_inj : {x y : Trip} → some x ≡ some y → x ≡ y
  some_inj e = cc

  finish :
      (trip_id driver_id : String) (next : TripStatus) (trip : Trip) (w0 w : W)
      → Set (v.name trip_id) driver_id next w0 w
      → Ensures
          (λ t w'. Moved v (v.name trip_id) driver_id next t w0 w')
          (λ e w'. Confined v (v.name trip_id) w0 w')
          ((s.trips.update_trip_status trip_id next
              >> (free_driver s trip_id driver_id next
                  >> (tell_rider s s.notifier (record trip { status = next }) next >>= λ told.
                      pure (record trip { status = next }))))
            w)
  finish trip_id driver_id next trip w0 w set =
      let id = v.name trip_id in
      Ensures-bind (s.trips.update_trip_status trip_id next) _ w
        (laws.update_trip_status_law trip_id next w)
        (λ u w1 (t, at, is_t, is).
          Ensures-bind (free_driver s trip_id driver_id next) _ w1
            (free_driver-trips laws trip_id driver_id next w1)
            (λ u2 w2 (c2, trips2, going2).
              Ensures-bind (tell_rider s s.notifier (record trip { status = next }) next) _ w2
                (tell_rider-Untouched laws s.notifier (record trip { status = next }) next w2 refl)
                (λ told w3 same. returned (record {
                  old = set.old;
                  new = record t { status = next; updated_at = at };
                  known = set.known;
                  after =
                      ap (λ f. f id) (same.trips ∙ trips2 ∙ is.trips)
                      ∙ put-same (v.trip w) id (record t { status = next; updated_at = at });
                  asked = set.asked;
                  allowed = set.allowed;
                  status = refl;
                  driven = subst (IsDrivenBy driver_id) (some_inj (sym set.now ∙ is_t)) set.driven;
                  shown = refl;
                  assigned = λ going.
                      let (a, is_a, ok_a) = set.assigned going in
                      (
                        a,
                        ap (λ f. f id) (same.assignments ∙ going2 going ∙ is.assignments) ∙ is_a,
                        ok_a,
                      );
                  trips = λ j n.
                      ap (λ f. f j) (same.trips ∙ trips2 ∙ is.trips)
                      ∙ put-other (v.trip w) id (record t { status = next; updated_at = at }) j n
                      ∙ set.confined.trips j n;
                  assignments = λ j n.
                      ap (λ f. f j) same.assignments
                      ∙ c2.assignments j n
                      ∙ ap (λ f. f j) is.assignments
                      ∙ set.confined.assignments j n;
                }))
                (λ e w3 never. absurd never))
            (λ e w2 never. absurd never))
        (λ e w1 k. Confined-trans v set.confined (Confined-Untouched v k))

  prepare :
      (trip_id driver_id : String) (next : TripStatus) (old trip cur : Trip) (w0 w : W)
      → Confined v (v.name trip_id) w0 w
      → v.trip w0 (v.name trip_id) ≡ some old
      → v.trip w (v.name trip_id) ≡ some cur
      → IsDrivenBy driver_id cur
      → is_driver_target next ≡ true
      → allowed_driver_transition old.status next ≡ true
      → Ensures
          (λ t w'. Moved v (v.name trip_id) driver_id next t w0 w')
          (λ e w'. Confined v (v.name trip_id) w0 w')
          ((s.assignments.get_by_trip_id trip_id >>= λ current.
              own_assignment s trip_id driver_id current >>= λ assignment.
              promote s trip_id driver_id next assignment
              >> (s.trips.update_trip_status trip_id next
                  >> (free_driver s trip_id driver_id next
                      >> (tell_rider s s.notifier (record trip { status = next }) next >>= λ told.
                          pure (record trip { status = next })))))
            w)
  prepare trip_id driver_id next old trip cur w0 w c known now driven asked allowed =
      Ensures-bind (s.assignments.get_by_trip_id trip_id) _ w (laws.get_by_trip_id_law trip_id w)
        (λ current w1 (is, same).
          let c1 = Confined-trans v c (Confined-Untouched v same) in
          Ensures-bind (own_assignment s trip_id driver_id current) _ w1
            (own_assignment-Holds laws trip_id driver_id current w1
              (is ∙ ap (λ f. f (v.name trip_id)) (sym same.assignments)))
            (λ a w2 (c2, trips2, holds).
              let c12 = Confined-trans v c1 c2 in
              Ensures-bind (promote s trip_id driver_id next a) _ w2
                (promote-accepts laws trip_id driver_id next a w2 holds)
                (λ u w3 (c3, trips3, going). finish trip_id driver_id next trip w0 w3 (record {
                  confined = Confined-trans v c12 c3;
                  old = old;
                  known = known;
                  cur = cur;
                  now = ap (λ f. f (v.name trip_id)) (trips3 ∙ trips2 ∙ same.trips) ∙ now;
                  driven = driven;
                  asked = asked;
                  allowed = allowed;
                  assigned = going;
                }))
                (λ e w3 k. Confined-trans v c12 k))
            (λ e w2 k. Confined-trans v c1 k))
        (λ e w1 k. Confined-trans v c (Confined-Untouched v k))

  -- Where a driver's update returns, the trip went by one allowed step from the status that it had to
  -- the one asked for, it has the driver, and while it goes on its assignment is accepted; no other
  -- trip and no other assignment differs. Where the update fails no trip's status differs, and
  -- nothing but this trip and its assignment.
  pub update_trip_status-Moved :
      (trip_id driver_id : String) (next : TripStatus) (w : W)
      → Ensures
          (λ t w'. Moved v (v.name trip_id) driver_id next t w w')
          (λ e w'. Confined v (v.name trip_id) w w')
          (update_trip_status s trip_id driver_id next w)
  unfolding update_trip_status
  update_trip_status-Moved trip_id driver_id next w =
      Ensures-raise_if (not (is_driver_target next)) invalid_status _ w
        (λ _.
          Confined-Untouched v
            (record { trips = refl; assignments = refl; onlines = refl; actives = refl }))
        (λ asked.
          Ensures-bind (s.trips.get_trip trip_id) _ w (laws.get_trip_law trip_id w)
            (λ found w1 ((is, named), same).
              let c1 = Confined-Untouched v same in
              Ensures-bind (claimed s trip_id driver_id found) _ w1
                (claimed_rows laws trip_id driver_id found w1
                  (ap (λ f. f (v.name trip_id)) same.trips ∙ is))
                (λ trip w2 (c2, status, cur, now, driven).
                  let c12 = Confined-trans v c1 c2 in
                  Ensures-raise_if (not (allowed_driver_transition trip.status next)) invalid_status
                    _ w2 (λ _. c12)
                    (λ allowed.
                      prepare trip_id driver_id next found trip cur w w2 c12 is now driven
                        (not-false (is_driver_target next) asked)
                        (ap (λ x. allowed_driver_transition x next) (sym status)
                          ∙ not-false (allowed_driver_transition trip.status next) allowed)))
                (λ e w2 k. Confined-trans v c1 k))
            (λ e w1 k. Confined-Untouched v k))
