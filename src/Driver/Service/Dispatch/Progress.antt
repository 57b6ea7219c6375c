-- ===== src/Driver/Service/Dispatch/Progress.antt =====
-- `UpdateTripStatus` of backend/internal/domain/driver_service.go: how a driver moves a trip on.
use uitgo_monorepo.Base.{
  String, ◌≡◌, refl, sym, ap, ◌∙◌, true, false, not, ◌&&◌, Option, none, some, ◌==◌, ◌⊎◌, inl, inr,
  arith,
}
use uitgo_monorepo.Base.Action.{pure}
use uitgo_monorepo.Base.Action.Ensures.{
  Ensures, returned, Ensures-mono, Ensures-if, Ensures-bind, Ensures-attempt,
}
use uitgo_monorepo.Trip.{TripStatus, Trip}
use uitgo_monorepo.Driver.{TripAssignmentStatus, TripAssignment, TripEventNotifier}
use uitgo_monorepo.Driver.Service.{DriverService}
use uitgo_monorepo.Driver.Service.Dispatch.{
  is_final, is_cancelled, is_accepted, is_driver_target, allowed_driver_transition, points_to,
  claimed, own_assignment, promote, free_driver, tell_rider,
}
use uitgo_monorepo.Driver.Service.Dispatch.Confined.{
  Confined, Confined-trans, Confined-Untouched, Confined-AssignmentIs, Confined-TripIs,
  Confined-HalfAssigned, Confined-HalfAnswered, HalfAnswered-trips, put-same, Untouched-refl,
}
use uitgo_monorepo.Driver.Service.Dispatch.Laws.{DispatchView, Untouched, IsDispatch, driver_value}

-- The driver of a trip after the driver `driver_id` has moved it on.
abbrev pub IsDrivenBy : String → Trip → Type 0
IsDrivenBy driver_id t =
    (points_to t.driver_id driver_id ≡ true) ⊎ (t.driver_id ≡ driver_value (some driver_id))

module _ {W : Type 0} (v : DispatchView W) where
  -- The trip `id` went from an allowed status to `next`, with the driver, and `t` shows it; where it
  -- goes on its assignment is accepted; no other trip and no other assignment differs.
  pub record Moved (id driver_id : String) (next : TripStatus) (t : Trip) (w w' : W) : Type 0 where
    pub old : Trip
    pub new : Trip
    pub known : v.trip w id ≡ some old
    pub after : v.trip w' id ≡ some new
    pub asked : is_driver_target next ≡ true
    pub allowed : allowed_driver_transition old.status next ≡ true
    pub status : new.status ≡ next
    pub driven : IsDrivenBy driver_id new
    pub shown : t.status ≡ next
    pub assigned :
        is_final next ≡ false
        → (a : TripAssignment) × (v.assignment w' id ≡ some a)
          × (a.status ≡ TripAssignmentStatus.accepted)
    pub trips : (j : String) → (id == j) ≡ false → v.trip w' j ≡ v.trip w j
    pub assignments : (j : String) → (id == j) ≡ false → v.assignment w' j ≡ v.assignment w j

module _ {W : Type 0} {v : DispatchView W} {s : DriverService W} (laws : IsDispatch v s) where
  pub claimed_rows :
      (trip_id driver_id : String) (found : Trip) (w : W)
      → v.trip w (v.name trip_id) ≡ some found
      → Ensures
          (λ t w'.
            Confined v (v.name trip_id) w w'
            × (t.status ≡ found.status)
            × (now : Trip) × (v.trip w' (v.name trip_id) ≡ some now)
            × IsDrivenBy driver_id now)
          (λ e w'. Confined v (v.name trip_id) w w')
          (claimed s trip_id driver_id found w)
  unfolding claimed
  claimed_rows trip_id driver_id found w known =
      Ensures-if (points_to found.driver_id driver_id) _ _ w
        (λ own. returned (Confined-Untouched v (Untouched-refl v w), refl, found, known, inl own))
        (λ not_own.
          Ensures-bind (s.assignments.assign trip_id driver_id) _ w
            (laws.assign_law trip_id driver_id w)
            (λ a w1 (fresh, assigned).
              let c1 = Confined-AssignmentIs v assigned in
              Ensures-bind (s.trips.set_trip_driver trip_id (some driver_id)) _ w1
                (laws.set_trip_driver_law trip_id (some driver_id) w1)
                (λ u w2 (t, now, is_t, is). returned (
                  Confined-trans v c1 (Confined-TripIs v is_t refl is),
                  refl,
                  record t { driver_id = driver_value (some driver_id); updated_at = now },
                  ap (λ f. f (v.name trip_id)) is.trips ∙ put-same (v.trip w1) (v.name trip_id) _,
                  inr refl,
                ))
                (λ e w2 k. Confined-trans v c1 (Confined-Untouched v k)))
            (λ e w1 k. Confined-HalfAssigned v k))

  -- The assignment that the trip has after it.
  abbrev pub Holds : String → W → TripAssignment → W → Type 0
  Holds id w a w' = Confined v id w w' × (v.trip w' ≡ v.trip w) × (v.assignment w' id ≡ some a)

  assign-Holds :
      (trip_id driver_id : String) (w : W)
      → Ensures
          (λ a w'. Holds (v.name trip_id) w a w')
          (λ e w'. Confined v (v.name trip_id) w w')
          (s.assignments.assign trip_id driver_id w)
  assign-Holds trip_id driver_id w =
      Ensures-mono (laws.assign_law trip_id driver_id w)
        (λ a w' (fresh, is). (
          Confined-AssignmentIs v is,
          is.trips,
          ap (λ f. f (v.name trip_id)) is.assignments
              ∙ put-same (v.assignment w) (v.name trip_id) a,
        ))
        (λ e w' k. Confined-HalfAssigned v k)

  pub own_assignment-Holds :
      (trip_id driver_id : String) (current : Option TripAssignment) (w : W)
      → current ≡ v.assignment w (v.name trip_id)
      → Ensures
          (λ a w'. Holds (v.name trip_id) w a w')
          (λ e w'. Confined v (v.name trip_id) w w')
          (own_assignment s trip_id driver_id current w)
  unfolding own_assignment
  own_assignment-Holds trip_id driver_id none w is = assign-Holds trip_id driver_id w
  own_assignment-Holds trip_id driver_id (some a) w is =
      Ensures-if (a.driver_id == driver_id) _ _ w
        (λ own. returned (Confined-Untouched v (Untouched-refl v w), refl, sym is))
        (λ not_own. assign-Holds trip_id driver_id w)

  accepted_already :
      (next : TripStatus) (st : TripAssignmentStatus)
      → not (is_cancelled next) && not (is_accepted st) ≡ false
      → is_final next ≡ false
      → st ≡ TripAssignmentStatus.accepted
  accepted_already next st h going = ground arith

  -- The assignment of a trip that goes on is accepted.
  pub promote-accepts :
      (trip_id driver_id : String) (next : TripStatus) (a : TripAssignment) (w : W)
      → v.assignment w (v.name trip_id) ≡ some a
      → Ensures
          (λ u w'.
            Confined v (v.name trip_id) w w'
            × (v.trip w' ≡ v.trip w)
            × (is_final next ≡ false
                → (x : TripAssignment) × (v.assignment w' (v.name trip_id) ≡ some x)
                  × (x.status ≡ TripAssignmentStatus.accepted)))
          (λ e w'. Confined v (v.name trip_id) w w')
          (promote s trip_id driver_id next a w)
  unfolding promote
  promote-accepts trip_id driver_id next a w is =
      Ensures-if (not (is_cancelled next) && not (is_accepted a.status)) _ _ w
        (λ needed.
          Ensures-bind
            (s.assignments.update_status trip_id driver_id TripAssignmentStatus.accepted none) _ w
            (laws.update_status_law trip_id driver_id TripAssignmentStatus.accepted none w)
            (λ x w1 (old, was, answered, done). returned (
              Confined-AssignmentIs v done,
              done.trips,
              λ going. (
                x,
                ap (λ f. f (v.name trip_id)) done.assignments
                    ∙ put-same (v.assignment w) (v.name trip_id) x,
                answered.status,
              ),
            ))
            (λ e w1 k. Confined-HalfAnswered v k))
        (λ there. returned (
          Confined-Untouched v (Untouched-refl v w),
          refl,
          λ going. (a, is, accepted_already next a.status there going),
        ))

  -- The driver of a finished trip is freed, where the update succeeds.
  pub free_driver-trips :
      (trip_id driver_id : String) (next : TripStatus) (w : W)
      → Ensures
          (λ u w'.
            Confined v (v.name trip_id) w w'
            × (v.trip w' ≡ v.trip w)
            × (is_final next ≡ false → v.assignment w' ≡ v.assignment w))
          (λ e w'. ⊥)
          (free_driver s trip_id driver_id next w)
  unfolding free_driver
  free_driver-trips trip_id driver_id next w =
      Ensures-if (is_final next) _ _ w
        (λ ended.
          Ensures-attempt
            (s.assignments.update_status trip_id driver_id TripAssignmentStatus.cancelled none)
            (λ r. pure tt) w
            (laws.update_status_law trip_id driver_id TripAssignmentStatus.cancelled none w)
            (λ x w1 (old, was, answered, done).
              returned (Confined-AssignmentIs v done, done.trips, λ going. ground arith))
            (λ e w1 k.
              returned (Confined-HalfAnswered v k, HalfAnswered-trips v k, λ going. ground arith)))
        (λ going. returned (Confined-Untouched v (Untouched-refl v w), refl, λ _. refl))

  pub tell_rider-Untouched :
      (n : Option (TripEventNotifier W)) (t : Trip) (st : TripStatus) (w : W)
      → s.notifier ≡ n
      → Ensures (λ r w'. Untouched v w w') (λ e w'. ⊥) (tell_rider s n t st w)
  unfolding tell_rider
  tell_rider-Untouched none t st w is = returned (Untouched-refl v w)
  tell_rider-Untouched (some n) t st w is =
      Ensures-attempt (n.notify_rider_status_change t st) pure w (laws.rider_law n t st w is)
        (λ a w' (_, same). returned same) (λ e w' same. returned same)
