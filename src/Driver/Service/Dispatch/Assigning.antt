-- ===== src/Driver/Service/Dispatch/Assigning.antt =====
-- `AssignTrip`, `AcceptTrip` and `DeclineTrip` of backend/internal/domain/driver_service.go: what
-- each does to the trips and the assignments.
use uitgo_monorepo.Base.{
  put, ℕ, String, ◌≡◌, refl, sym, ap, ◌∙◌, Bool, true, false, not, ◌||◌, ◌&&◌, ◌==◌, ◌≤◌, eq_iff,
  Option, none, some, arith,
}
use uitgo_monorepo.Base.Text.{is_empty}
use uitgo_monorepo.Errors.{Error, driver_offline, assignment_conflict}
use uitgo_monorepo.Base.Action.{Action, pure, raise_if, ◌>>=◌, ◌>>◌}
use uitgo_monorepo.Base.Action.Ensures.{
  Ensures, returned, Ensures-bind, Ensures-raise_if, Ensures-attempt,
}
use uitgo_monorepo.Trip.{Trip}
use uitgo_monorepo.Driver.{Driver, TripAssignment, TripAssignmentStatus, TripEventNotifier}
use uitgo_monorepo.Driver.Service.{DriverService, has_online}
use uitgo_monorepo.Driver.Service.Dispatch.{is_released, conflicts, tell_driver, assign_trip}
use uitgo_monorepo.Driver.Service.Dispatch.Confined.{Untouched-refl, Untouched-trans}
use uitgo_monorepo.Driver.Service.Dispatch.Laws.{
  DispatchView, Untouched, IsFresh, HalfAssigned, not_assigned, half_assigned, IsDispatch,
  driver_value, is_open, IsActive, Newest, idle, busy,
}

module _ {W : Type 0} (v : DispatchView W) where
  -- The trip `id` has the driver `d`, and `a` is its assignment; no other trip and no other
  -- assignment differs.
  pub record Given (id : String) (d : Option String) (a : TripAssignment) (w w' : W) : Type 0 where
    pub old : Trip
    pub now : ℕ
    pub known : v.trip w id ≡ some old
    pub trips : v.trip w' ≡ put (v.trip w) id (record old { driver_id = d; updated_at = now })
    pub assignments : v.assignment w' ≡ put (v.assignment w) id a

  -- The driver `d` may be given the trip: it has no active assignment, or the one that changed last is
  -- of this trip.
  pub data IsFree (trip_id d : String) (w : W) : Type 0 where
    no_active :
        ((k : String) (a : TripAssignment)
          → v.assignment w k ≡ some a
          → a.driver_id ≡ d
          → is_open a.status ≡ false)
        → IsFree trip_id d w
    same_trip :
        (a : TripAssignment)
        → IsActive v d w a
        → ((b : TripAssignment) → IsActive v d w b → b.updated_at ≤ a.updated_at)
        → a.trip_id ≡ trip_id
        → IsFree trip_id d w

  conflicts-IsFree :
      (trip_id d : String) (w : W) (o : Option TripAssignment)
      → Newest v d w o
      → conflicts trip_id o ≡ false
      → IsFree trip_id d w
  unfolding conflicts
  conflicts-IsFree trip_id d w none (idle nothing) free = no_active nothing
  conflicts-IsFree trip_id d w (some a) (busy a' active newest) free =
      same_trip a active newest (
        (eq_iff a.trip_id trip_id).0 (settled a.status (a.trip_id == trip_id) active.open_yet free))
    where
      settled :
          (st : TripAssignmentStatus) (b : Bool)
          → is_open st ≡ true
          → not b && not (is_released st) ≡ false
          → b ≡ true
      settled TripAssignmentStatus.pending b h free = ground arith
      settled TripAssignmentStatus.accepted b h free = ground arith
      settled TripAssignmentStatus.declined b h free = cc
      settled TripAssignmentStatus.cancelled b h free = cc
      settled (TripAssignmentStatus.other s) b h free = cc

module _ {W : Type 0} {v : DispatchView W} {s : DriverService W} (laws : IsDispatch v s) where
  -- The driver is told, and nothing that is seen changes.
  pub tell_driver-Untouched :
      (n : Option (TripEventNotifier W)) (d : Driver) (t : Trip) (w : W)
      → s.notifier ≡ n
      → Ensures (λ r w'. Untouched v w w') (λ e w'. ⊥) (tell_driver s n d t w)
  unfolding tell_driver
  tell_driver-Untouched none d t w is = returned (Untouched-refl v w)
  tell_driver-Untouched (some n) d t w is =
      Ensures-attempt (n.notify_driver_trip_assigned d t) pure w (laws.driver_law n d t w is)
        (λ a w' (_, same). returned same) (λ e w' same. returned same)

  -- A failure after reads alone.
  HalfAssigned-after :
      {id d : String} {a b c : W}
      → Untouched v a b
      → HalfAssigned v id d b c
      → HalfAssigned v id d a c
  HalfAssigned-after h (not_assigned k) = not_assigned (Untouched-trans v h k)
  HalfAssigned-after {id} h (half_assigned a fresh k) = half_assigned a fresh (record {
    trips = k.trips ∙ h.trips;
    assignments = k.assignments ∙ ap (λ f. put f id a) h.assignments;
  })

  -- The rows of an assignment: the assignment itself, then the trip's driver.
  assign_rows :
      {A : Type 0} (trip_id driver_id : String) (k : TripAssignment → Action W A) (w : W)
      {P : A → W → Type 0} {Q : Error → W → Type 0}
      → ((a : TripAssignment) (w' : W)
          → IsFresh v (v.name trip_id) (v.name driver_id) a
          → Given v (v.name trip_id) (driver_value (some driver_id)) a w w'
          → Ensures P Q (k a w'))
      → ((e : Error) (w' : W) → HalfAssigned v (v.name trip_id) (v.name driver_id) w w' → Q e w')
      → Ensures P Q (
          (s.assignments.assign trip_id driver_id >>= λ a.
          s.trips.set_trip_driver trip_id (some driver_id) >> k a)
            w)
  assign_rows trip_id driver_id k w go stop =
      Ensures-bind (s.assignments.assign trip_id driver_id) _ w
        (laws.assign_law trip_id driver_id w)
        (λ a w1 (fresh, assigned).
          Ensures-bind (s.trips.set_trip_driver trip_id (some driver_id)) _ w1
            (laws.set_trip_driver_law trip_id (some driver_id) w1)
            (λ u w2 (t, now, known, is). go a w2 fresh (record {
              old = t;
              now = now;
              known = sym (ap (λ f. f (v.name trip_id)) assigned.trips) ∙ known;
              trips =
                  is.trips
                  ∙ ap
                      (λ f.
                        put f (v.name trip_id) (record t {
                          driver_id = driver_value (some driver_id);
                          updated_at = now;
                        }))
                      assigned.trips;
              assignments = is.assignments ∙ assigned.assignments;
            }))
            (λ e w2 same. stop e w2 (
              half_assigned a fresh (record {
                trips = same.trips ∙ assigned.trips;
                assignments = same.assignments ∙ assigned.assignments;
              }))))
        (λ e w1 half. stop e w1 half)

  Given-after :
      {id : String} {d : Option String} {x : TripAssignment} {a b c : W}
      → Untouched v a b
      → Given v id d x b c
      → Given v id d x a c
  Given-after {id} {d} {x} h g = record {
    old = g.old;
    now = g.now;
    known = sym (ap (λ f. f id) h.trips) ∙ g.known;
    trips =
        g.trips ∙ ap (λ f. put f id (record g.old { driver_id = d; updated_at = g.now })) h.trips;
    assignments = g.assignments ∙ ap (λ f. put f id x) h.assignments;
  }

  Given-before :
      {id : String} {d : Option String} {x : TripAssignment} {a b c : W}
      → Given v id d x a b
      → Untouched v b c
      → Given v id d x a c
  Given-before g h = record {
    old = g.old;
    now = g.now;
    known = g.known;
    trips = h.trips ∙ g.trips;
    assignments = h.assignments ∙ g.assignments;
  }

  not-false : (b : Bool) → not b ≡ false → b ≡ true
  not-false b h = ground arith

  -- The reads and the checks before an assignment.
  assign_checks :
      (trip_id driver_id : String) (driver : Driver) (trip : Trip) (w w0 : W)
      → Untouched v w0 w
      → Ensures
          (λ a w'.
            IsFresh v (v.name trip_id) (v.name driver_id) a
            × Given v (v.name trip_id) (driver_value (some driver_id)) a w0 w'
            × (v.online w0 (v.name driver_id) ≡ true)
            × IsFree v trip_id (v.name driver_id) w0)
          (λ e w'. HalfAssigned v (v.name trip_id) (v.name driver_id) w0 w')
          ((s.drivers.get_availability driver_id >>= λ status.
              raise_if (not (has_online status)) driver_offline
              >> (s.assignments.find_active_by_driver driver_id >>= λ active.
                  raise_if (conflicts trip_id active) assignment_conflict
                  >> (s.assignments.assign trip_id driver_id >>= λ a.
                      s.trips.set_trip_driver trip_id (some driver_id)
                      >> (tell_driver s s.notifier driver trip >>= λ told. pure a))))
            w)
  assign_checks trip_id driver_id driver trip w w0 s0 =
      Ensures-bind (s.drivers.get_availability driver_id) _ w
        (laws.get_availability_law driver_id w)
        (λ status w1 (on, s1).
          Ensures-raise_if (not (has_online status)) driver_offline _ w1
            (λ _. not_assigned (Untouched-trans v s0 s1))
            (λ there.
              Ensures-bind (s.assignments.find_active_by_driver driver_id) _ w1
                (laws.find_active_law driver_id w1)
                (λ active w2 (is, s2).
                  let before = Untouched-trans v s0 (Untouched-trans v s1 s2) in
                  Ensures-raise_if (conflicts trip_id active) assignment_conflict _ w2
                    (λ _. not_assigned before)
                    (λ free.
                      assign_rows trip_id driver_id _ w2
                        (λ a w3 fresh given.
                          Ensures-bind (tell_driver s s.notifier driver trip) _ w3
                            (tell_driver-Untouched s.notifier driver trip w3 refl)
                            (λ told w4 s4. returned (
                              fresh,
                              Given-before (Given-after before given) s4,
                              sym (ap (λ f. f (v.name driver_id)) s0.onlines)
                                  ∙ sym on
                                  ∙ not-false _ there,
                              conflicts-IsFree v trip_id (v.name driver_id) w0 _
                                  (laws.active_law (v.name driver_id) w0)
                                  (ap (conflicts trip_id) (
                                      sym (
                                        is
                                        ∙ ap (λ f. f (v.name driver_id)) (s1.actives ∙ s0.actives)))
                                    ∙ free),
                            ))
                            (λ e w4 never. absurd never))
                        (λ e w3 half. HalfAssigned-after before half)))
                (λ e w2 s2. not_assigned (Untouched-trans v s0 (Untouched-trans v s1 s2)))))
        (λ e w1 s1. not_assigned (Untouched-trans v s0 s1))

  -- A trip that AssignTrip assigned has the driver and a fresh pending assignment of the driver, who
  -- was online, and whose active assignment that changed last, if it had one, was of this very trip;
  -- no other trip or assignment differs. Where the call fails the trips are as they were.
  pub assign_trip-Given :
      (trip_id driver_id : String) (w : W)
      → Ensures
          (λ a w'.
            IsFresh v (v.name trip_id) (v.name driver_id) a
            × Given v (v.name trip_id) (driver_value (some driver_id)) a w w'
            × (v.online w (v.name driver_id) ≡ true)
            × IsFree v trip_id (v.name driver_id) w)
          (λ e w'. HalfAssigned v (v.name trip_id) (v.name driver_id) w w')
          (assign_trip s trip_id driver_id w)
  unfolding assign_trip
  assign_trip-Given trip_id driver_id w =
      Ensures-raise_if (is_empty trip_id || is_empty driver_id) _ _ w
        (λ _. not_assigned (Untouched-refl v w))
        (λ _.
          Ensures-bind (s.trips.get_trip trip_id) _ w (laws.get_trip_law trip_id w)
            (λ trip w1 (_, s1).
              Ensures-bind (s.drivers.find_by_id driver_id) _ w1 (laws.find_by_id_law driver_id w1)
                (λ driver w2 (_, s2).
                  assign_checks trip_id driver_id driver trip w2 w (Untouched-trans v s1 s2))
                (λ e w2 s2. not_assigned (Untouched-trans v s1 s2)))
            (λ e w1 s1. not_assigned s1))
