-- ===== src/Driver/Service/Dispatch/Lifecycle.antt =====
-- The life of a trip under `allowedDriverTransition` of
-- backend/internal/domain/driver_service.go, as a relation on statuses.
use uitgo_monorepo.Base.{ℕ, ◌+◌, ◌≤◌, ◌<◌, ◌≡◌, refl, true, ◌↔◌, arith, List, [], ◌∷◌, length}
use uitgo_monorepo.Trip.{
  TripStatus, requested, accepted, arriving, in_ride, completed, cancelled, other,
}
use uitgo_monorepo.Driver.Service.Dispatch.{allowed_driver_transition}

-- A trip that has not ended.
pub data IsOpen : TripStatus → Type 0 where
  is_requested : IsOpen requested
  is_accepted : IsOpen accepted
  is_arriving : IsOpen arriving
  is_in_ride : IsOpen in_ride

-- The diagram: a ride goes forward one stage at a time, and may end early in either way.
infix 40 ◌⟶◌
pub data ◌⟶◌ : TripStatus → TripStatus → Type 0 where
  approach : accepted ⟶ arriving
  pick_up : arriving ⟶ in_ride
  finish : {s : TripStatus} → IsOpen s → s ⟶ completed
  abandon : {s : TripStatus} → IsOpen s → s ⟶ cancelled

ruleset edges =
    (approach, pick_up, finish, abandon, is_requested, is_accepted, is_arriving, is_in_ride)

allowed-⟶ : (s t : TripStatus) → allowed_driver_transition s t ≡ true → s ⟶ t
unfolding allowed_driver_transition
allowed-⟶ s t h = grind (arith, edges)

⟶-allowed : {s t : TripStatus} → s ⟶ t → allowed_driver_transition s t ≡ true
unfolding allowed_driver_transition
⟶-allowed approach = refl
⟶-allowed pick_up = refl
⟶-allowed (finish is_requested) = refl
⟶-allowed (finish is_accepted) = refl
⟶-allowed (finish is_arriving) = refl
⟶-allowed (finish is_in_ride) = refl
⟶-allowed (abandon is_requested) = refl
⟶-allowed (abandon is_accepted) = refl
⟶-allowed (abandon is_arriving) = refl
⟶-allowed (abandon is_in_ride) = refl

-- The test of the source decides the diagram: it allows a step exactly when there is an edge.
pub allowed_driver_transition_iff :
    (s t : TripStatus) → (allowed_driver_transition s t ≡ true) ↔ (s ⟶ t)
allowed_driver_transition_iff s t = (allowed-⟶ s t, ⟶-allowed)

-- How far a trip has come.
abbrev pub stage : TripStatus → ℕ
stage requested = 0
stage accepted = 1
stage arriving = 2
stage in_ride = 3
stage completed = 4
stage cancelled = 4
stage (other s) = 0

-- A run of allowed steps.
abbrev pub Allowed : TripStatus → List TripStatus → Type 0
Allowed s [] = Unit
Allowed s (t ∷ ts) = (allowed_driver_transition s t ≡ true) × Allowed t ts

stage-lt : (s t : TripStatus) → allowed_driver_transition s t ≡ true → stage s < stage t
unfolding allowed_driver_transition
stage-lt s t h = ground arith

stage-le : (s : TripStatus) → stage s ≤ 4
stage-le s = ground arith

-- A driver takes a trip through at most three more statuses once it is accepted, four in all: no
-- run of allowed steps is longer, so none can go round in a circle.
pub Allowed-run_short :
    (s : TripStatus) (ts : List TripStatus) → Allowed s ts → stage s + length ts ≤ 4
Allowed-run_short s [] h = omega (arith, stage-le s)
Allowed-run_short s (t ∷ ts) h = omega (arith, stage-lt s t h.0, Allowed-run_short t ts h.1)
