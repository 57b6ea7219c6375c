-- ===== src/Driver/Service/Dispatch/Confined.antt =====
-- What a call of the dispatch in backend/internal/domain/driver_service.go keeps when it works on
-- one trip.
use mathlib.Core.Path.{fun_ext}
use uitgo_monorepo.Base.{
  put, String, ◌≡◌, refl, sym, ap, ◌∙◌, Bool, true, false, Option, none, some, ◌==◌, eq_refl,
  eq_iff, if◌then◌else◌,
}
use uitgo_monorepo.Errors.{Error}
use uitgo_monorepo.Trip.{TripStatus, Trip}
use uitgo_monorepo.Driver.{TripAssignment}
use uitgo_monorepo.Driver.Service.Dispatch.Laws.{
  DispatchView, Untouched, TripIs, AssignmentIs, HalfAssigned, not_assigned, half_assigned,
  HalfAnswered, not_answered, half_answered,
}

abbrev pub status_of : Option Trip → Option TripStatus
status_of none = none
status_of (some t) = some t.status

pub put-same : {A : Type 0} (f : String → Option A) (k : String) (a : A) → put f k a k ≡ some a
put-same f k a = ap (λ b. if b then some a else f k) (eq_refl k)

pub put-other :
    {A : Type 0} (f : String → Option A) (k : String) (a : A) (j : String)
    → (k == j) ≡ false
    → put f k a j ≡ f j
put-other f k a j h = ap (λ b. if b then some a else f j) h

put_twice :
    {A : Type 0} (b : Bool) (x y : A) (z : Option A)
    → (if b then some y else if b then some x else z) ≡ (if b then some y else z)
put_twice true x y z = refl
put_twice false x y z = refl

pub put-put :
    {A : Type 0} (f : String → Option A) (k : String) (x y : A) → put (put f k x) k y ≡ put f k y
put-put f k x y = fun_ext (λ j. put_twice (k == j) x y (f j))

module _ {W : Type 0} (v : DispatchView W) where
  -- No trip changes its status, and nothing changes but the trip `id` and its assignment.
  pub record Confined (id : String) (w w' : W) : Type 0 where
    pub statuses : (j : String) → status_of (v.trip w' j) ≡ status_of (v.trip w j)
    pub trips : (j : String) → (id == j) ≡ false → v.trip w' j ≡ v.trip w j
    pub assignments : (j : String) → (id == j) ≡ false → v.assignment w' j ≡ v.assignment w j

  pub Untouched-refl : (w : W) → Untouched v w w
  Untouched-refl w = record { trips = refl; assignments = refl; onlines = refl; actives = refl }

  pub Untouched-trans : {a b c : W} → Untouched v a b → Untouched v b c → Untouched v a c
  Untouched-trans h k = record {
    trips = k.trips ∙ h.trips;
    assignments = k.assignments ∙ h.assignments;
    onlines = k.onlines ∙ h.onlines;
    actives = k.actives ∙ h.actives;
  }

  pub Confined-Untouched : {id : String} {a b : W} → Untouched v a b → Confined id a b
  Confined-Untouched h = record {
    statuses = λ j. ap (λ f. status_of (f j)) h.trips;
    trips = λ j _. ap (λ f. f j) h.trips;
    assignments = λ j _. ap (λ f. f j) h.assignments;
  }

  pub Confined-trans :
      {id : String} {a b c : W} → Confined id a b → Confined id b c → Confined id a c
  Confined-trans h k = record {
    statuses = λ j. k.statuses j ∙ h.statuses j;
    trips = λ j n. k.trips j n ∙ h.trips j n;
    assignments = λ j n. k.assignments j n ∙ h.assignments j n;
  }

  pub Confined-AssignmentIs :
      {id : String} {x : TripAssignment} {a b : W} → AssignmentIs v id x a b → Confined id a b
  Confined-AssignmentIs {id} {x} {a} h = record {
    statuses = λ j. ap (λ f. status_of (f j)) h.trips;
    trips = λ j _. ap (λ f. f j) h.trips;
    assignments = λ j n. ap (λ f. f j) h.assignments ∙ put-other (v.assignment a) id x j n;
  }

  pub Confined-HalfAssigned :
      {id driver_id : String} {a b : W} → HalfAssigned v id driver_id a b → Confined id a b
  Confined-HalfAssigned (not_assigned h) = Confined-Untouched h
  Confined-HalfAssigned (half_assigned x fresh h) = Confined-AssignmentIs h

  pub Confined-HalfAnswered :
      {id driver_id : String} {e : Error} {a b : W}
      → HalfAnswered v id driver_id e a b
      → Confined id a b
  Confined-HalfAnswered (not_answered h free) = Confined-Untouched h
  Confined-HalfAnswered (half_answered x e h) = Confined-AssignmentIs h

  status_put :
      (b : Bool) (t : Trip) (o : Option Trip)
      → (b ≡ true → status_of o ≡ some t.status)
      → status_of (if b then some t else o) ≡ status_of o
  status_put true t o h = sym (h refl)
  status_put false t o h = refl

  -- A trip that is written with its old status.
  pub Confined-TripIs :
      {id : String} {old t : Trip} {a b : W}
      → v.trip a id ≡ some old
      → t.status ≡ old.status
      → TripIs v id t a b
      → Confined id a b
  Confined-TripIs {id} {old} {t} {a} known same h = record {
    statuses = λ j.
        ap (λ f. status_of (f j)) h.trips
        ∙ status_put (id == j) t (v.trip a j) (λ is.
          ap status_of (ap (v.trip a) (sym ((eq_iff id j).0 is)) ∙ known) ∙ ap some (sym same));
    trips = λ j n. ap (λ f. f j) h.trips ∙ put-other (v.trip a) id t j n;
    assignments = λ j _. ap (λ f. f j) h.assignments;
  }

  -- The trip written with its old status, and the assignment written.
  pub Confined-rows :
      {id : String} {old : Trip} {a b : W} (t : Trip) (x : TripAssignment)
      → v.trip a id ≡ some old
      → t.status ≡ old.status
      → v.trip b ≡ put (v.trip a) id t
      → v.assignment b ≡ put (v.assignment a) id x
      → Confined id a b
  Confined-rows {id} {old} {a} t x known same trips assigned = record {
    statuses = λ j.
        ap (λ f. status_of (f j)) trips
        ∙ status_put (id == j) t (v.trip a j) (λ is.
          ap status_of (ap (v.trip a) (sym ((eq_iff id j).0 is)) ∙ known) ∙ ap some (sym same));
    trips = λ j n. ap (λ f. f j) trips ∙ put-other (v.trip a) id t j n;
    assignments = λ j n. ap (λ f. f j) assigned ∙ put-other (v.assignment a) id x j n;
  }

  pub HalfAnswered-trips :
      {id driver_id : String} {e : Error} {a b : W}
      → HalfAnswered v id driver_id e a b
      → v.trip b ≡ v.trip a
  HalfAnswered-trips (not_answered k free) = k.trips
  HalfAnswered-trips (half_answered x other k) = k.trips

  pub HalfAnswered-after :
      {id driver_id : String} {e : Error} {a b c : W}
      → Untouched v a b
      → HalfAnswered v id driver_id e b c
      → HalfAnswered v id driver_id e a c
  HalfAnswered-after {id} h (not_answered k free) =
      not_answered (Untouched-trans h k) (λ is. record {
        other = λ x known. (free is).other x (ap (λ f. f id) h.assignments ∙ known);
      })
  HalfAnswered-after {id} h (half_answered x other k) = half_answered x other (record {
    trips = k.trips ∙ h.trips;
    assignments = k.assignments ∙ ap (λ f. put f id x) h.assignments;
  })
