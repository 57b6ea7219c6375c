-- ===== src/Notification/Routes.antt =====
-- The text of the notification that backend/internal/notification/service.go sends to a driver.
use Prim.Native.String.{[], ◌∷◌}
use uitgo_monorepo.Base.{
  ℕ, suc, ◌+◌, ◌≤◌, arith, String, ◌≡◌, ap, false, some, ◌==◌, eq_iff, Bool-cases, inl, inr,
}
use uitgo_monorepo.Base.Text.{is_empty, trim_space, concat}
use uitgo_monorepo.Trip.{Trip}
use uitgo_monorepo.Driver.{Driver}
use uitgo_monorepo.Notification.{
  Service, assigned_data, route_text, send, notify_driver_trip_assigned,
}

-- The number of characters.
len : String → ℕ
len [] = 0
len (c ∷ s) = suc (len s)

len-concat : (a b : String) → len (concat a b) ≡ len a + len b
unfolding len concat
len-concat [] b = omega arith
len-concat (c ∷ a) b = omega (arith, len-concat a b)

long : (a b : String) → 2 ≤ len (concat a (concat " → " b))
unfolding len
long a b = omega (arith, len-concat a (concat " → " b), len-concat " → " b)

arrow_unlike : (a b : String) → (concat a (concat " → " b) == "→") ≡ false
unfolding len
arrow_unlike a b = elim (Bool-cases (concat a (concat " → " b) == "→")) [
  | inl is ↦
      let same : concat a (concat " → " b) ≡ "→" = (eq_iff (concat a (concat " → " b)) "→").0 is in
      absurd (omega (arith, long a b, ap len same))
  | inr other ↦ other
]

module _ {W : Type 0} (s : Service W) where
  arrow_of_route : (trip : Trip) → (route_text s trip == "→") ≡ false
  unfolding route_text
  arrow_of_route trip = arrow_unlike (trim_space trip.origin_text) (trim_space trip.dest_text)

  -- A driver with a user is always told the route itself, also where the trip has neither origin nor
  -- destination: the text for a request without a route is never sent.
  pub notify_driver_trip_assigned-route_text :
      (d : Driver) (t : Trip) (w : W)
      → is_empty d.user_id ≡ false
      → notify_driver_trip_assigned s d t w
        ≡ send s d.user_id "trip.assigned" "New trip assigned"
            (route_text s t)
            (some t.id)
            (assigned_data s t)
            w
  unfolding notify_driver_trip_assigned
  notify_driver_trip_assigned-route_text d t w user = rw (user, arrow_of_route t)
