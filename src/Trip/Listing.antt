-- ===== src/Trip/Listing.antt =====
-- What `ListTrips` of backend/internal/db/trip_repository.go shows to whom, through `List` of
-- backend/internal/domain/service.go.
use uitgo_monorepo.Base.{
  String, ◌≡◌, refl, sym, ap, ◌∙◌, Bool, true, false, ◌||◌, Option, none, some, List, [], ◌∷◌, map,
  All, suc, ◌==◌, eq_iff, length, arith, ◌≤◌, if◌then◌else◌, Bool-cases, ◌⊎◌, inl, inr,
}
use uitgo_monorepo.Base.Int.{ℤ, pos, ◌≤ℤ◌, leb_ℤ, ltb_ℤ}
use uitgo_monorepo.Base.Text.{is_empty}
use uitgo_monorepo.Base.Action.Ensures.{
  Ensures, returned, Ensures-any, Ensures-bind, Ensures-raise_if,
}
use uitgo_monorepo.Trip.{Trip}
use uitgo_monorepo.Trip.Store.{TripModel, Runtime, TripStore}
use uitgo_monorepo.Trip.Repository.{to_trip, is_listed, is_driven_by, list_trips, trip_repository}
use uitgo_monorepo.Trip.Service.{TripService, list}

-- Documented behaviour of a query: the rows meet its condition, and there are at most `limit`.
pub record IsQueried {W : Type 0} (s : TripStore W) : Type 0 where
  pub read_trips_law :
      (p : TripModel → Bool) (limit offset : ℤ) (w : W)
      → pos 1 ≤ℤ limit
      → pos 0 ≤ℤ offset
      → Ensures
          (λ rows w'. All (λ m. p m ≡ true) rows × (pos (length rows) ≤ℤ limit))
          (λ e w'. Unit {0})
          (s.read_trips p limit offset w)

-- A trip that a user may see in a list: one that the driver has, for a driver, and else one that the
-- rider ordered.
abbrev pub IsOwn : String → String → Trip → Type 0
IsOwn user_id role trip =
    ((role ≡ "driver") × (trip.driver_id ≡ some user_id))
    ⊎ ((¬ (role ≡ "driver")) × (trip.rider_id ≡ user_id))

driven : (o : Option String) (u : String) → is_driven_by o u ≡ true → o ≡ some u
unfolding is_driven_by
driven none u h = cc
driven (some d) u h = ap some ((eq_iff d u).0 h)

-- The role as the service passes it on.
abbrev shown_role : String → String
shown_role role = if role == "driver" then role else "rider"

listed-driver :
    (user_id role : String) (m : TripModel)
    → (role == "driver") ≡ true
    → is_listed user_id (shown_role role) m ≡ is_driven_by m.driver_id user_id
unfolding is_listed
listed-driver user_id role m same = rw same (rw same)

listed-rider :
    (user_id role : String) (m : TripModel)
    → (role == "driver") ≡ false
    → is_listed user_id (shown_role role) m ≡ (m.rider_id == user_id)
unfolding is_listed
listed-rider user_id role m other = rw other

listed-IsOwn :
    (user_id role : String) (m : TripModel)
    → is_listed user_id (shown_role role) m ≡ true
    → IsOwn user_id role (to_trip m)
listed-IsOwn user_id role m h = elim (Bool-cases (role == "driver")) [
  | inl same ↦ inl (
    (eq_iff role "driver").0 same,
    driven m.driver_id user_id (sym (listed-driver user_id role m same) ∙ h),
  )
  | inr other ↦ inr (
    λ is. cc (other, (eq_iff role "driver").1 is),
    (eq_iff m.rider_id user_id).0 (sym (listed-rider user_id role m other) ∙ h),
  )
]

listed-All :
    (user_id role : String) (rows : List TripModel)
    → All (λ m. is_listed user_id (shown_role role) m ≡ true) rows
    → All (IsOwn user_id role) (map to_trip rows)
listed-All user_id role [] h = tt
listed-All user_id role (m ∷ rows) h =
    (listed-IsOwn user_id role m h.0, listed-All user_id role rows h.1)

abbrev clamped : ℤ → ℤ
clamped limit = if leb_ℤ limit (pos 0) || ltb_ℤ (pos 100) limit then pos 20 else limit

clamped-bounds : (limit : ℤ) → (pos 1 ≤ℤ clamped limit) × (clamped limit ≤ℤ pos 100)
clamped-bounds limit = ground arith

length-map : (rows : List TripModel) → length (map to_trip rows) ≡ length rows
length-map [] = refl
length-map (m ∷ rows) = ap suc (length-map rows)

offset_from : ℤ → ℤ
offset_from offset = if ltb_ℤ offset (pos 0) then pos 0 else offset

offset_from-nonneg : (offset : ℤ) → pos 0 ≤ℤ offset_from offset
unfolding offset_from
offset_from-nonneg offset = ground arith

module _ {W : Type 0} (r : Runtime W) {st : TripStore W} (laws : IsQueried st) where
  list_trips-All :
      (user_id role : String) (limit offset : ℤ) (w : W)
      → Ensures
          (λ a w'. All (IsOwn user_id role) a.0 × (length a.0 ≤ 100))
          (λ e w'. Unit {0})
          (list_trips r st user_id (shown_role role) limit offset w)
  unfolding list_trips offset_from
  list_trips-All user_id role limit offset w =
      Ensures-bind {P = λ n w. Unit {0}} {Q = λ e w. Unit {0}}
        (st.read_count (is_listed user_id (shown_role role))) _ w (Ensures-any _)
        (λ total w1 _.
          Ensures-bind
            (st.read_trips (is_listed user_id (shown_role role)) (clamped limit)
              (offset_from offset))
            _ w1
            (laws.read_trips_law (is_listed user_id (shown_role role)) (clamped limit)
              (offset_from offset) w1 ((clamped-bounds limit).0) (offset_from-nonneg offset))
            (λ rows w2 (meet, few). returned (
              listed-All user_id role rows meet,
              omega (arith, length-map rows, (clamped-bounds limit).1),
            ))
            (λ e w2 _. tt))
        (λ e w1 _. tt)

  -- A list of trips holds at most a hundred, whatever limit was asked for, and each is the user's own:
  -- a driver sees the trips that have the driver, anyone else the trips that the user ordered.
  pub list-IsOwn :
      (s : TripService W) (user_id role : String) (limit offset : ℤ) (w : W)
      → s.repo ≡ trip_repository r st
      → Ensures
          (λ a w'. All (IsOwn user_id role) a.0 × (length a.0 ≤ 100))
          (λ e w'. Unit {0})
          (list s user_id role limit offset w)
  unfolding list trip_repository
  list-IsOwn s user_id role limit offset w is = rw is (
      Ensures-raise_if (is_empty user_id) _ _ w (λ _. tt)
        (λ _. list_trips-All user_id role limit offset w))
