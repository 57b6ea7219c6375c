-- ===== src/Driver/Service/Dispatch/Answering.antt =====
-- `AcceptTrip` of backend/internal/domain/driver_service.go: what a driver who
-- accepts does to the trip and its assignment.
use uitgo_monorepo.Base.{put, ℕ, String, ◌≡◌, refl, sym, ap, ◌∙◌, Option, some}
use uitgo_monorepo.Errors.{Error, trip_assignment_not_found}
use uitgo_monorepo.Base.Action.{Result, ok, err, pure, ◌>>=◌, ◌>>◌}
use uitgo_monorepo.Base.Action.Ensures.{
  Ensures, returned, raised, Ensures-mono, Ensures-bind, Ensures-attempt,
}
use uitgo_monorepo.Trip.{Trip, accepted}
use uitgo_monorepo.Driver.{TripAssignmentStatus, TripAssignment}
use uitgo_monorepo.Driver.Service.{DriverService}
use uitgo_monorepo.Driver.Service.Dispatch.{accepted_or_assigned, accept_trip}
use uitgo_monorepo.Driver.Service.Dispatch.Confined.{
  Confined, Confined-trans, Confined-Untouched, Confined-AssignmentIs, Confined-TripIs,
  Confined-rows, Confined-HalfAssigned, Confined-HalfAnswered, HalfAnswered-after, put-put,
  put-same,
}
use uitgo_monorepo.Driver.Service.Dispatch.Laws.{
  DispatchView, Untouched, TripIs, HalfAnswered, not_answered, half_answered, IsNotOf, IsDispatch,
  driver_value,
}

module _ {W : Type 0} (v : DispatchView W) where
  -- The driver of the trip after an acceptance: as it was where the driver holds the assignment, and
  -- else the driver.
  pub data Holder (id driver_id : String) (new : Option String) (w : W) (old : Trip)
      : Option String → Type 0 where
    kept :
        (x : TripAssignment)
        → v.assignment w id ≡ some x
        → x.driver_id ≡ driver_id
        → Holder id driver_id new w old old.driver_id
    taken : IsNotOf v id driver_id w → Holder id driver_id new w old new

  -- The driver's assignment `a` is accepted, and so is the trip; no other trip and no other assignment
  -- differs.
  pub record Accepted (id driver_id : String) (new : Option String) (a : TripAssignment) (w w' : W)
      : Type 0 where
    pub old : Trip
    pub now : ℕ
    pub driver : Option String
    pub known : v.trip w id ≡ some old
    pub holder : Holder id driver_id new w old driver
    pub trips :
        v.trip w'
        ≡ put (v.trip w) id (record old { driver_id = driver; status = accepted; updated_at = now })
    pub assignments : v.assignment w' ≡ put (v.assignment w) id a
    pub mine : a.driver_id ≡ driver_id
    pub state : a.status ≡ TripAssignmentStatus.accepted

  -- Before the trip is accepted: its driver alone may have been set.
  data Claim (id driver_id : String) (new : Option String) (w w' : W) : Type 0 where
    held :
        (x : TripAssignment)
        → v.assignment w id ≡ some x
        → x.driver_id ≡ driver_id
        → v.trip w' ≡ v.trip w
        → Claim id driver_id new w w'
    set :
        (old : Trip) (now : ℕ)
        → v.trip w id ≡ some old
        → v.trip w' ≡ put (v.trip w) id (record old { driver_id = new; updated_at = now })
        → IsNotOf v id driver_id w
        → Claim id driver_id new w w'

  some_inj : {x y : Trip} → some x ≡ some y → x ≡ y
  some_inj e = cc

  -- The last step: the status of the trip.
  Accepted-step :
      {id driver_id : String} {new : Option String} {a : TripAssignment} {w m w' : W} (t : Trip)
      (now : ℕ)
      → Claim id driver_id new w m
      → v.trip m id ≡ some t
      → TripIs v id (record t { status = accepted; updated_at = now }) m w'
      → v.assignment m ≡ put (v.assignment w) id a
      → a.driver_id ≡ driver_id
      → a.status ≡ TripAssignmentStatus.accepted
      → Accepted id driver_id new a w w'
  Accepted-step {id} t now (held x known mine' same) is h assigned mine state = record {
    old = t;
    now = now;
    driver = t.driver_id;
    known = sym (ap (λ f. f id) same) ∙ is;
    holder = kept x known mine';
    trips = h.trips ∙ ap (λ f. put f id (record t { status = accepted; updated_at = now })) same;
    assignments = h.assignments ∙ assigned;
    mine = mine;
    state = state;
  }
  Accepted-step {id} {new} {w} t now (set old at known same free) is h assigned mine state =
      let old' = record old { driver_id = new; updated_at = at } in
      let is_old : old' ≡ t =
        some_inj (sym (put-same (v.trip w) id old') ∙ sym (ap (λ f. f id) same) ∙ is) in
      record {
        old = old;
        now = now;
        driver = new;
        known = known;
        holder = taken free;
        trips =
            h.trips
            ∙ ap (λ f. put f id (record t { status = accepted; updated_at = now })) same
            ∙ put-put (v.trip w) id old' (record t { status = accepted; updated_at = now })
            ∙ ap (λ x. put (v.trip w) id (record x { status = accepted; updated_at = now }))
                (sym is_old);
        assignments = h.assignments ∙ assigned;
        mine = mine;
        state = state;
      }

module _ {W : Type 0} {v : DispatchView W} {s : DriverService W} (laws : IsDispatch v s) where
  -- What `accepted_or_assigned` leaves where it returns, and where it fails.
  abbrev Half : (id driver_id : String) → Option String → W → TripAssignment → W → Type 0
  Half id driver_id new w a w' =
      Claim v id driver_id new w w'
      × (v.assignment w' ≡ put (v.assignment w) id a)
      × (a.driver_id ≡ driver_id)
      × (a.status ≡ TripAssignmentStatus.accepted)

  -- A driver without the assignment is given the trip first.
  claim_rows :
      (trip_id driver_id : String) (now : ℕ) (w0 w : W)
      → Untouched v w0 w
      → IsNotOf v (v.name trip_id) (v.name driver_id) w0
      → Ensures
          (Half (v.name trip_id) (v.name driver_id) (driver_value (some driver_id)) w0)
          (λ e w'. Confined v (v.name trip_id) w0 w')
          (accepted_or_assigned s trip_id driver_id now (err trip_assignment_not_found) w)
  unfolding accepted_or_assigned
  claim_rows trip_id driver_id now w0 w same free =
      Ensures-bind (s.assignments.assign trip_id driver_id) _ w
        (laws.assign_law trip_id driver_id w)
        (λ x w1 (fresh, assigned).
          let c1 =
            Confined-trans v (Confined-Untouched v same) (Confined-AssignmentIs v assigned) in
          Ensures-bind (s.trips.set_trip_driver trip_id (some driver_id)) _ w1
            (laws.set_trip_driver_law trip_id (some driver_id) w1)
            (λ u w2 (t, at, known, is).
              let c2 = Confined-trans v c1 (Confined-TripIs v known refl is) in
              Ensures-mono
                (laws.update_status_law trip_id driver_id TripAssignmentStatus.accepted (some now)
                  w2)
                (λ a w3 (old, was, answered, done). (
                  set t at
                      (sym (ap (λ f. f (v.name trip_id)) (assigned.trips ∙ same.trips)) ∙ known)
                      (done.trips
                        ∙ is.trips
                        ∙ ap
                            (λ f. put f (v.name trip_id) (record t {
                              driver_id = driver_value (some driver_id);
                              updated_at = at;
                            }))
                            (assigned.trips ∙ same.trips))
                      free,
                  done.assignments
                      ∙ ap (λ f. put f (v.name trip_id) a) (is.assignments ∙ assigned.assignments)
                      ∙ put-put _ (v.name trip_id) x a
                      ∙ ap (λ f. put f (v.name trip_id) a) same.assignments,
                  answered.driver,
                  answered.status,
                ))
                (λ e w3 k. Confined-trans v c2 (Confined-HalfAnswered v k)))
            (λ e w2 k. Confined-trans v c1 (Confined-Untouched v k)))
        (λ e w1 k. Confined-trans v (Confined-Untouched v same) (Confined-HalfAssigned v k))

  -- `accepted_or_assigned` on any result of the first update.
  accepted_rows :
      (trip_id driver_id : String) (now : ℕ) (e : Error) (w0 w : W)
      → HalfAnswered v (v.name trip_id) (v.name driver_id) e w0 w
      → Ensures
          (Half (v.name trip_id) (v.name driver_id) (driver_value (some driver_id)) w0)
          (λ e w'. Confined v (v.name trip_id) w0 w')
          (accepted_or_assigned s trip_id driver_id now (err e) w)
  unfolding accepted_or_assigned
  accepted_rows trip_id driver_id now trip_assignment_not_found w0 w (half_answered a other h) =
      absurd (other refl)
  accepted_rows trip_id driver_id now trip_assignment_not_found w0 w (not_answered same free) =
      claim_rows trip_id driver_id now w0 w same (free refl)
  accepted_rows trip_id driver_id now e w0 w h = raised (Confined-HalfAnswered v h)

  Confined-Claim :
      {id driver_id : String} {new : Option String} {w w' : W} (a : TripAssignment)
      → Claim v id driver_id new w w'
      → v.assignment w' ≡ put (v.assignment w) id a
      → Confined v id w w'
  Confined-Claim a (held x known mine same) assigned =
      Confined-AssignmentIs v {x = a} (record { trips = same; assignments = assigned })
  Confined-Claim a (set old now known trips free) assigned =
      Confined-rows v (record old { driver_id = _; updated_at = now }) a known refl trips assigned

  accepted_ok :
      {P : TripAssignment → W → Type 0} {Q : Error → W → Type 0} (trip_id driver_id : String)
      (now : ℕ) (a : TripAssignment) (w : W)
      → P a w
      → Ensures P Q (accepted_or_assigned s trip_id driver_id now (ok a) w)
  unfolding accepted_or_assigned
  accepted_ok trip_id driver_id now a w p = returned p

  accept_last :
      (trip_id driver_id : String) (now : ℕ) (r : Result TripAssignment) (w0 w : W)
      → Ensures
          (Half (v.name trip_id) (v.name driver_id) (driver_value (some driver_id)) w0)
          (λ e w'. Confined v (v.name trip_id) w0 w')
          (accepted_or_assigned s trip_id driver_id now r w)
      → Ensures
          (λ a w'.
            Accepted v (v.name trip_id) (v.name driver_id) (driver_value (some driver_id)) a w0 w')
          (λ e w'. Confined v (v.name trip_id) w0 w')
          ((accepted_or_assigned s trip_id driver_id now r >>= λ assignment.
              s.trips.update_trip_status trip_id accepted >> pure assignment)
            w)
  accept_last trip_id driver_id now r w0 w h =
      Ensures-bind (accepted_or_assigned s trip_id driver_id now r) _ w h
        (λ a w1 (claim, assigned, mine, state).
          Ensures-bind (s.trips.update_trip_status trip_id accepted) _ w1
            (laws.update_trip_status_law trip_id accepted w1)
            (λ u w2 (t, at, known, is).
              returned (Accepted-step v t at claim known is assigned mine state))
            (λ e w2 k. Confined-trans v (Confined-Claim a claim assigned) (Confined-Untouched v k)))
        (λ e w1 k. k)

  -- A driver who accepts holds the accepted assignment of the trip, whose status is accepted whatever
  -- it was before. The trip's driver is left as it is where the driver held the assignment, and is
  -- else the driver. Where the call fails no trip's status differs, and nothing but this trip and its
  -- assignment.
  pub accept_trip-Accepted :
      (trip_id driver_id : String) (w : W)
      → Ensures
          (λ a w'.
            Accepted v (v.name trip_id) (v.name driver_id) (driver_value (some driver_id)) a w w')
          (λ e w'. Confined v (v.name trip_id) w w')
          (accept_trip s trip_id driver_id w)
  unfolding accept_trip
  accept_trip-Accepted trip_id driver_id w =
      let same = laws.now_law w in
      Ensures-attempt
        (s.assignments.update_status trip_id driver_id TripAssignmentStatus.accepted
          (some (s.now w).0))
        (λ r. accepted_or_assigned s trip_id driver_id (s.now w).0 r >>= λ assignment.
          s.trips.update_trip_status trip_id accepted >> pure assignment)
        (s.now w).1
        (laws.update_status_law trip_id driver_id TripAssignmentStatus.accepted (some (s.now w).0)
          (s.now w).1)
        (λ a w1 (old, was, answered, done). accept_last trip_id driver_id (s.now w).0 (ok a) w w1 (
          accepted_ok trip_id driver_id (s.now w).0 a w1 (
            held old (sym (ap (λ f. f (v.name trip_id)) same.assignments) ∙ was) answered.was
                (done.trips ∙ same.trips),
            done.assignments ∙ ap (λ f. put f (v.name trip_id) a) same.assignments,
            answered.driver,
            answered.status,
          )))
        (λ e w1 h.
          accept_last trip_id driver_id (s.now w).0 (err e) w w1
            (accepted_rows trip_id driver_id (s.now w).0 e w w1 (HalfAnswered-after v same h)))
