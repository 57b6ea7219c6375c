-- ===== src/Driver/Service/Dispatch/Rereading.antt =====
-- An update of backend/internal/db/trip_assignment_repository.go that must have changed a row and
-- reads it again, on every branch.
use uitgo_monorepo.Base.{ℕ, String, ◌≡◌, ap, ◌∙◌, Bool, true, false, Option, none, some, eqb}
use uitgo_monorepo.Errors.{Error, trip_assignment_not_found}
use uitgo_monorepo.Base.Action.{Action, raise_if, ◌>>=◌, ◌>>◌}
use uitgo_monorepo.Base.Action.Ensures.{Ensures, returned, raised, Ensures-bind}
use uitgo_monorepo.Trip.Store.{Runtime, TripStore}
use uitgo_monorepo.Driver.Assignments.{
  TripAssignmentModel, TripAssignmentStore, to_trip_assignment, found_row, reread,
}
use uitgo_monorepo.Driver.Service.Dispatch.Confined.{put-same}
use uitgo_monorepo.Driver.Service.Dispatch.Database.{
  DispatchTables, Same, Wrote, AssignmentUpdated, hit, missed, Unless, IsDatabase,
}

module _ {W : Type 0} {t : DispatchTables W} {r : Runtime W} {s : TripStore W}
    {a : TripAssignmentStore W} (laws : IsDatabase t r s a) where
  -- The row `f m` was written, for the row `m` that met the condition.
  abbrev pub Changed :
      String
      → (TripAssignmentModel → Bool)
      → (TripAssignmentModel → TripAssignmentModel)
      → W
      → W
      → TripAssignmentModel
      → Type 0
  Changed k good f w w' m = (t.assignment w k ≡ some m) × (good m ≡ true) × Wrote t k (f m) w w'

  -- A failed `reread`: the condition was met by no row, or the row was written and not read again.
  pub data NotReread (k : String) (good : TripAssignmentModel → Bool)
      (f : TripAssignmentModel → TripAssignmentModel) (e : Error) (w w' : W) : Type 0 where
    unmet :
        (e ≡ trip_assignment_not_found
          → (m : TripAssignmentModel) → t.assignment w k ≡ some m
          → good m ≡ false)
        → Same t w w'
        → NotReread k good f e w w'
    unread :
        (m : TripAssignmentModel)
        → ¬ (e ≡ trip_assignment_not_found)
        → Changed k good f w w' m
        → NotReread k good f e w w'

  found_row-Ensures :
      (o : Option TripAssignmentModel) (k : String) (good : TripAssignmentModel → Bool)
      (f : TripAssignmentModel → TripAssignmentModel) (m : TripAssignmentModel) (w w' : W)
      → o ≡ some (f m)
      → Changed k good f w w' m
      → Ensures
          (λ x w'.
            (m : TripAssignmentModel) × (x ≡ to_trip_assignment (f m)) × Changed k good f w w' m)
          (λ e w'. NotReread k good f e w w')
          (found_row r a o w')
  unfolding found_row
  found_row-Ensures none k good f m w w' is h = cc
  found_row-Ensures (some x) k good f m w w' is h =
      let ex : x ≡ f m = cc in returned (m, ap to_trip_assignment ex, h)

  reread_counted :
      (k : String) (good : TripAssignmentModel → Bool)
      (f : TripAssignmentModel → TripAssignmentModel) (n : ℕ) (w w1 : W)
      → AssignmentUpdated t k good f w w1 n
      → Ensures
          (λ x w'.
            (m : TripAssignmentModel) × (x ≡ to_trip_assignment (f m)) × Changed k good f w w' m)
          (λ e w'. NotReread k good f e w w')
          ((raise_if (eqb n 0) trip_assignment_not_found >> (a.first k >>= found_row r a)) w1)
  reread_counted k good f n w w1 (hit m known meets wrote) =
      Ensures-bind (a.first k) _ w1 (laws.first_law k w1)
        (λ o w2 (found, same).
          found_row-Ensures o k good f m w w2
            (found ∙ ap (λ h. h k) wrote.assignments ∙ put-same (t.assignment w) k (f m))
            (
              known,
              meets,
              record {
                trips = same.trips ∙ wrote.trips;
                assignments = same.assignments ∙ wrote.assignments;
              },
            ))
        (λ e w2 (other, same). unread m other (
          known,
          meets,
          record {
            trips = same.trips ∙ wrote.trips;
            assignments = same.assignments ∙ wrote.assignments;
          },
        ))
  reread_counted k good f n w w1 (missed never same) = raised (unmet (λ _. never) same)

  pub reread-Ensures :
      (k : String) (good : TripAssignmentModel → Bool)
      (f : TripAssignmentModel → TripAssignmentModel) (update : Action W ℕ) (w : W)
      → Ensures (λ n w'. AssignmentUpdated t k good f w w' n) (λ e w'. Unless t e w w') (update w)
      → Ensures
          (λ x w'.
            (m : TripAssignmentModel) × (x ≡ to_trip_assignment (f m)) × Changed k good f w w' m)
          (λ e w'. NotReread k good f e w w')
          (reread r a k update w)
  unfolding reread
  reread-Ensures k good f update w h =
      Ensures-bind update _ w h (λ n w1 is. reread_counted k good f n w w1 is)
        (λ e w1 (other, same). unmet (λ is. absurd (other is)) same)
