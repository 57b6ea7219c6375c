-- ===== src/Driver/Service/Dispatch/Declining.antt =====
-- `DeclineTrip` of backend/internal/domain/driver_service.go: what a driver who declines does to the
-- trip and its assignment.
use uitgo_monorepo.Base.{put, ℕ, String, ◌≡◌, refl, sym, ap, ◌∙◌, Option, none, some, ◌⊎◌, inl, inr}
use uitgo_monorepo.Errors.{Error, trip_assignment_not_found}
use uitgo_monorepo.Base.Action.{err, pure}
use uitgo_monorepo.Base.Action.Ensures.{Ensures, returned, raised, Ensures-bind, Ensures-attempt}
use uitgo_monorepo.Trip.{Trip}
use uitgo_monorepo.Driver.{TripAssignmentStatus, TripAssignment}
use uitgo_monorepo.Driver.Service.{DriverService}
use uitgo_monorepo.Driver.Service.Dispatch.{release, decline_trip}
use uitgo_monorepo.Driver.Service.Dispatch.Confined.{
  Confined, Confined-trans, Confined-Untouched, Confined-AssignmentIs, Confined-HalfAnswered,
  HalfAnswered-after,
}
use uitgo_monorepo.Driver.Service.Dispatch.Laws.{
  DispatchView, TripIs, HalfAnswered, not_answered, half_answered, IsNotOf, IsDispatch,
}

module _ {W : Type 0} (v : DispatchView W) where
  -- The trip has no driver any more; `x` is its assignment, or nothing was done to the assignments.
  pub record Freed (id : String) (w w' : W) : Type 0 where
    pub old : Trip
    pub now : ℕ
    pub known : v.trip w id ≡ some old
    pub trips : v.trip w' ≡ put (v.trip w) id (record old { driver_id = none; updated_at = now })

  pub data Declined (id driver_id : String) (w w' : W) : Option TripAssignment → Type 0 where
    given_up :
        (a : TripAssignment)
        → a.driver_id ≡ driver_id
        → a.status ≡ TripAssignmentStatus.declined
        → v.assignment w' ≡ put (v.assignment w) id a
        → Freed id w w'
        → Declined id driver_id w w' (some a)
    not_held :
        IsNotOf v id driver_id w
        → v.assignment w' ≡ v.assignment w
        → (v.trip w' ≡ v.trip w) ⊎ Freed id w w'
        → Declined id driver_id w w' none

module _ {W : Type 0} {v : DispatchView W} {s : DriverService W} (laws : IsDispatch v s) where
  Freed-after :
      {id : String} {a b : W} (t : Trip) (now : ℕ) (w : W)
      → v.trip w ≡ v.trip a
      → v.trip w id ≡ some t
      → TripIs v id (record t { driver_id = none; updated_at = now }) w b
      → Freed v id a b
  Freed-after {id} t now w same known is = record {
    old = t;
    now = now;
    known = sym (ap (λ f. f id) same) ∙ known;
    trips = is.trips ∙ ap (λ f. put f id (record t { driver_id = none; updated_at = now })) same;
  }

  release_err :
      (trip_id driver_id : String) (e : Error) (w0 w : W)
      → HalfAnswered v (v.name trip_id) (v.name driver_id) e w0 w
      → Ensures
          (λ o w'. Declined v (v.name trip_id) (v.name driver_id) w0 w' o)
          (λ e w'. Confined v (v.name trip_id) w0 w')
          (release s trip_id (err e) w)
  unfolding release
  release_err trip_id driver_id trip_assignment_not_found w0 w (half_answered a other h) =
      absurd (other refl)
  release_err trip_id driver_id trip_assignment_not_found w0 w (not_answered same free) =
      Ensures-attempt (s.trips.set_trip_driver trip_id none) (λ x. pure none) w
        (laws.set_trip_driver_law trip_id none w)
        (λ u w' (t, now, known, is). returned (
          not_held (free refl) (is.assignments ∙ same.assignments)
            (inr (Freed-after t now w same.trips known is))))
        (λ e w' k.
          returned
            (not_held (free refl) (k.assignments ∙ same.assignments) (inl (k.trips ∙ same.trips))))
  release_err trip_id driver_id e w0 w h = raised (Confined-HalfAnswered v h)

  -- A driver who declines the trip that is assigned to it holds the declined assignment, and the trip
  -- has no driver. A driver who does not hold the assignment gets nil: the assignments stay, and the
  -- trip has no driver or is as it was. Where the call fails no trip's status differs, and nothing but
  -- this trip and its assignment.
  pub decline_trip-Declined :
      (trip_id driver_id : String) (w : W)
      → Ensures
          (λ o w'. Declined v (v.name trip_id) (v.name driver_id) w w' o)
          (λ e w'. Confined v (v.name trip_id) w w')
          (decline_trip s trip_id driver_id w)
  unfolding decline_trip release
  decline_trip-Declined trip_id driver_id w =
      let same = laws.now_law w in
      Ensures-attempt
        (s.assignments.update_status trip_id driver_id TripAssignmentStatus.declined
          (some (s.now w).0))
        (release s trip_id) (s.now w).1
        (laws.update_status_law trip_id driver_id TripAssignmentStatus.declined (some (s.now w).0)
          (s.now w).1)
        (λ a w1 (old, was, answered, done).
          Ensures-bind (s.trips.set_trip_driver trip_id none) _ w1
            (laws.set_trip_driver_law trip_id none w1)
            (λ u w2 (t, now, known, is). returned (
              given_up a answered.driver answered.status
                (is.assignments
                  ∙ done.assignments
                  ∙ ap (λ f. put f (v.name trip_id) a) same.assignments)
                (Freed-after t now w1 (done.trips ∙ same.trips) known is)))
            (λ e w2 k.
              Confined-trans v (Confined-Untouched v same)
                (Confined-trans v (Confined-AssignmentIs v done) (Confined-Untouched v k))))
        (λ e w1 h. release_err trip_id driver_id e w w1 (HalfAnswered-after v same h))
