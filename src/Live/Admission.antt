-- ===== src/Live/Admission.antt =====
-- Who may open a connection to the hub of a trip: `checkWebSocketOrigin` and `canAccessTripWS` of
-- backend/internal/http/handlers/ws.go.
use text.Mathlib.TextEquality.{starts_with_iff}
use text.Mathlib.TextBridge.{IsPrefix}
use text.Mathlib.Text.{starts_with}
use uitgo_monorepo.Base.{
  String, ◌≡◌, refl, ◌↔◌, Bool, true, false, not, ◌==◌, ◌||◌, eq_iff, Option, none, some, List, [],
  ◌∷◌, ◌⊎◌, inl, inr, if◌then◌else◌,
}
use uitgo_monorepo.Base.Text.{is_empty, to_lower}
use uitgo_monorepo.Trip.{Trip}
use uitgo_monorepo.Live.Messages.{has_driver, can_access_trip_ws}

-- `allowedWebSocketOrigins` where nothing was set.
abbrev pub default_origins : List String
default_origins =
    "http://localhost" ∷ "http://127.0.0.1" ∷ "https://uitgo.local" ∷ "https://app.uitgo.com" ∷ []

-- `SetAllowedWebSocketOrigins`: the new list of origins.
unfoldable pub set_origins : List String → List String → List String
set_origins old [] = old
set_origins old (o ∷ os) = o ∷ os

unfoldable pub is_allowed : List String → String → Bool
is_allowed [] origin = false
is_allowed (allowed ∷ rest) origin = starts_with origin allowed || is_allowed rest origin

-- A request without the header is not from a browser.
unfoldable pub check_websocket_origin : List String → String → Bool
check_websocket_origin origins origin = if is_empty origin then true else is_allowed origins origin

-- Some allowed origin is the beginning of the origin.
pub data Begins (origin : String) : List String → Type 0 where
  here : {o : String} {os : List String} → IsPrefix o origin → Begins origin (o ∷ os)
  there : {o : String} {os : List String} → Begins origin os → Begins origin (o ∷ os)

or_cases : (a b : Bool) → (a || b) ≡ true → (a ≡ true) ⊎ (b ≡ true)
or_cases true b h = inl refl
or_cases false b h = inr h

or_right : (a b : Bool) → b ≡ true → (a || b) ≡ true
or_right true b h = refl
or_right false b h = h

is_allowed-Begins :
    (os : List String) (origin : String) → is_allowed os origin ≡ true → Begins origin os
unfolding is_allowed
is_allowed-Begins [] origin h = cc
is_allowed-Begins (o ∷ os) origin h = elim (or_cases (starts_with origin o) _ h) [
  | inl starts ↦ here ((starts_with_iff origin o).0 starts)
  | inr later ↦ there (is_allowed-Begins os origin later)
]

Begins-is_allowed :
    (os : List String) (origin : String) → Begins origin os → is_allowed os origin ≡ true
unfolding is_allowed
Begins-is_allowed [] origin p = elim p [ ]
Begins-is_allowed (o ∷ os) origin (here p) = rw ((starts_with_iff origin o).1 p) refl
Begins-is_allowed (o ∷ os) origin (there p) =
    or_right (starts_with origin o) _ (Begins-is_allowed os origin p)

-- An origin is let in where it begins with an allowed one, and only there: anything may follow, also
-- what makes it another host. A request without an origin is let in.
pub check_websocket_origin_iff :
    (os : List String) (origin : String)
    → (check_websocket_origin os origin ≡ true) ↔ ((is_empty origin ≡ true) ⊎ Begins origin os)
unfolding check_websocket_origin
check_websocket_origin_iff os origin = (λ h. to (is_empty origin) h, λ h. from (is_empty origin) h)
  where
    to :
        (b : Bool)
        → (if b then true else is_allowed os origin) ≡ true
        → (b ≡ true) ⊎ Begins origin os
    to true h = inl refl
    to false h = inr (is_allowed-Begins os origin h)

    from :
        (b : Bool)
        → (b ≡ true) ⊎ Begins origin os
        → (if b then true else is_allowed os origin) ≡ true
    from true h = refl
    from false (inl h) = cc
    from false (inr h) = Begins-is_allowed os origin h

-- An admin, the rider of the trip, or a driver once the trip has one, whoever that is.
pub data IsAdmitted (trip : Trip) (user_id role : String) : Type 0 where
  by_admin : to_lower role ≡ "admin" → IsAdmitted trip user_id role
  by_rider : trip.rider_id ≡ user_id → IsAdmitted trip user_id role
  by_driver :
      (d : String)
      → trip.driver_id ≡ some d
      → is_empty d ≡ false
      → to_lower role ≡ "driver"
      → IsAdmitted trip user_id role

one_of :
    (a b c d : Bool)
    → ((if a then true else if b then true else if c then d else false) ≡ true)
      ↔ ((a ≡ true) ⊎ ((b ≡ true) ⊎ ((c ≡ true) × (d ≡ true))))
one_of true b c d = (λ h. inl refl, λ h. refl)
one_of false true c d = (λ h. inr (inl refl), λ h. refl)
one_of false false true d = (λ h. inr (inr (refl, h)), λ h. last h)
  where
    last : (false ≡ true) ⊎ ((false ≡ true) ⊎ ((true ≡ true) × (d ≡ true))) → d ≡ true
    last (inl h) = cc
    last (inr (inl h)) = cc
    last (inr (inr h)) = h.1
one_of false false false d = (λ h. cc, λ h. last h)
  where
    last : (false ≡ true) ⊎ ((false ≡ true) ⊎ ((false ≡ true) × (d ≡ true))) → false ≡ true
    last (inl h) = h
    last (inr (inl h)) = h
    last (inr (inr h)) = h.0

has_driver-some :
    (o : Option String) → has_driver o ≡ true → (d : String) × (o ≡ some d) × (is_empty d ≡ false)
unfolding has_driver
has_driver-some none h = cc
has_driver-some (some d) h = (d, refl, not_true (is_empty d) h)
  where
    not_true : (b : Bool) → not b ≡ true → b ≡ false
    not_true true h = cc
    not_true false h = refl

-- The connection of a user is accepted exactly for an admin, the rider of the trip, and any driver once
-- the trip has a driver.
pub can_access_trip_ws_iff :
    (trip : Trip) (user_id role : String)
    → (can_access_trip_ws trip user_id role ≡ true) ↔ IsAdmitted trip user_id role
unfolding can_access_trip_ws has_driver
can_access_trip_ws_iff trip user_id role = (
  λ h.
      elim ((one_of (to_lower role == "admin") (trip.rider_id == user_id)
          (has_driver trip.driver_id) (to_lower role == "driver")).0
        h) [
          | inl admin ↦ by_admin ((eq_iff (to_lower role) "admin").0 admin)
          | inr (inl rider) ↦ by_rider ((eq_iff trip.rider_id user_id).0 rider)
          | inr (inr (assigned, driver)) ↦
              let (d, is, named) = has_driver-some trip.driver_id assigned in
              by_driver d is named ((eq_iff (to_lower role) "driver").0 driver)
        ],
  λ admitted. let_in admitted,
)
  where
    let_in : IsAdmitted trip user_id role → can_access_trip_ws trip user_id role ≡ true
    let_in (by_admin is) =
        (one_of (to_lower role == "admin") (trip.rider_id == user_id) (has_driver trip.driver_id)
            (to_lower role == "driver")).1
          (inl ((eq_iff (to_lower role) "admin").1 is))
    let_in (by_rider is) =
        (one_of (to_lower role == "admin") (trip.rider_id == user_id) (has_driver trip.driver_id)
            (to_lower role == "driver")).1
          (inr (inl ((eq_iff trip.rider_id user_id).1 is)))
    let_in (by_driver d is named role_is) =
        (one_of (to_lower role == "admin") (trip.rider_id == user_id) (has_driver trip.driver_id)
            (to_lower role == "driver")).1
          (inr (inr (rw is (rw named refl), (eq_iff (to_lower role) "driver").1 role_is)))
