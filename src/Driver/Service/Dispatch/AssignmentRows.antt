-- ===== src/Driver/Service/Dispatch/AssignmentRows.antt =====
-- Each operation of backend/internal/db/trip_assignment_repository.go that the dispatch uses, on
-- every branch.
use mathlib.Core.Path.{subst}
use uitgo_monorepo.Base.{
  ℕ, String, ◌≡◌, refl, sym, ap, ◌∙◌, true, false, Option, none, some, ◌==◌, eq_iff,
}
use uitgo_monorepo.Errors.{Error}
use uitgo_monorepo.Base.Action.Ensures.{Ensures, returned, Ensures-mono, Ensures-bind}
use uitgo_monorepo.Trip.Store.{Runtime, TripStore, canonical}
use uitgo_monorepo.Driver.{TripAssignmentStatus, TripAssignment}
use uitgo_monorepo.Driver.Assignments.{
  TripAssignmentModel, TripAssignmentStore, to_trip_assignment, new_assignment, response_time,
  shown, reread, assign_row, assign, update_status, get_by_trip_id, find_active_by_driver,
}
use uitgo_monorepo.Driver.Service.Dispatch.Laws.{
  AssignmentIs, IsFresh, HalfAssigned, not_assigned, half_assigned, HalfAnswered, not_answered,
  half_answered, IsAnswered, Reads,
}
use uitgo_monorepo.Driver.Service.Dispatch.Database.{DispatchTables, view, Same, IsDatabase}
use uitgo_monorepo.Driver.Service.Dispatch.Repositories.{
  Ensures-parse, Untouched-Same, Same-trans, Same-refl, Wrote-after, AssignmentIs-Wrote,
}
use uitgo_monorepo.Driver.Service.Dispatch.Rereading.{
  Changed, NotReread, unmet, unread, reread-Ensures,
}

module _ {W : Type 0} {t : DispatchTables W} {r : Runtime W} {s : TripStore W}
    {a : TripAssignmentStore W} (laws : IsDatabase t r s a) where
  pub get_by_trip_id-Reads :
      (id : String) (w : W)
      → Reads
          (view r t)
          (λ o w. o ≡ (view r t).assignment w ((view r t).name id))
          w
          (get_by_trip_id r a id)
  unfolding get_by_trip_id
  get_by_trip_id-Reads id w =
      Ensures-parse (r.parse_id id) _ w
        (λ is.
          Ensures-bind (a.first (canonical (r.parse_id id))) _ w
            (laws.first_law (canonical (r.parse_id id)) w)
            (λ o w1 (found, same). returned (ap shown found, Untouched-Same t r same))
            (λ e w1 (_, same). Untouched-Same t r same))
        (λ e is. Untouched-Same t r (Same-refl w))

  pub find_active_by_driver-Reads :
      (id : String) (w : W)
      → Reads
          (view r t)
          (λ o w. o ≡ (view r t).active w ((view r t).name id))
          w
          (find_active_by_driver r a id)
  unfolding find_active_by_driver
  find_active_by_driver-Reads id w =
      Ensures-parse (r.parse_id id) _ w
        (λ is.
          Ensures-bind (a.first_with (canonical (r.parse_id id)) _) _ w
            (laws.first_with_law (canonical (r.parse_id id)) w)
            (λ o w1 (found, same). returned (ap shown found, Untouched-Same t r same))
            (λ e w1 (_, same). Untouched-Same t r same))
        (λ e is. Untouched-Same t r (Same-refl w))

  abbrev given_to : String → ℕ → TripAssignmentModel → TripAssignmentModel
  given_to driver_uid now m = record m {
    driver_id = driver_uid;
    status = TripAssignmentStatus.pending;
    responded_at = none;
    updated_at = now;
  }

  Changed-IsFresh :
      (k d : String) (now : ℕ) (m : TripAssignmentModel) (w w1 w' : W)
      → Same t w w1
      → Changed laws k (λ _. true) (given_to d now) w1 w' m
      → IsFresh (view r t) k d (to_trip_assignment (given_to d now m))
        × AssignmentIs (view r t) k (to_trip_assignment (given_to d now m)) w w'
  Changed-IsFresh k d now m w w1 w' same (known, meets, wrote) = (
    record {
      trip = laws.assignment_key_law w1 k m known;
      driver = refl;
      status = refl;
      responded = refl;
    },
    AssignmentIs-Wrote t r (Wrote-after same wrote),
  )

  NotReread-assigned :
      (k d : String) (now : ℕ) (e : Error) (w w1 w' : W)
      → Same t w w1
      → NotReread laws k (λ _. true) (given_to d now) e w1 w'
      → HalfAssigned (view r t) k d w w'
  NotReread-assigned k d now e w w1 w' same (unmet never same2) =
      not_assigned (Untouched-Same t r (Same-trans same same2))
  NotReread-assigned k d now e w w1 w' same (unread m other changed) =
      let both = Changed-IsFresh k d now m w w1 w' same changed in half_assigned _ both.0 both.1

  assign_row-Ensures :
      (k d : String) (now : ℕ) (o : Option TripAssignmentModel) (w w1 : W)
      → Same t w w1
      → Ensures
          (λ x w'. IsFresh (view r t) k d x × AssignmentIs (view r t) k x w w')
          (λ e w'. HalfAssigned (view r t) k d w w')
          (assign_row r a k d now o w1)
  unfolding assign_row
  assign_row-Ensures k d now none w w1 same =
      let same2 = Same-trans same (laws.new_id_law w1) in
      Ensures-bind (a.create (new_assignment (r.new_id w1).0 k d now)) _ (r.new_id w1).1
        (laws.create_law (new_assignment (r.new_id w1).0 k d now) (r.new_id w1).1)
        (λ m w2 (trip, driver, status, responded, wrote). returned (
          record { trip = trip; driver = driver; status = status; responded = responded },
          AssignmentIs-Wrote t r (Wrote-after same2 wrote),
        ))
        (λ e w2 (_, k2). not_assigned (Untouched-Same t r (Same-trans same2 k2)))
  assign_row-Ensures k d now (some existing) w w1 same =
      Ensures-mono
        (reread-Ensures laws k (λ _. true) (given_to d now) (a.update k (given_to d now)) w1
          (laws.update_law k (given_to d now) w1 (λ m. refl)))
        (λ x w' (m, is, changed).
          let both = Changed-IsFresh k d now m w w1 w' same changed in
          subst (λ x. IsFresh (view r t) k d x × AssignmentIs (view r t) k x w w') (sym is) both)
        (λ e w' h. NotReread-assigned k d now e w w1 w' same h)

  pub assign-IsFresh :
      (trip_id driver_id : String) (w : W)
      → Ensures
          (λ x w'.
            IsFresh (view r t) ((view r t).name trip_id) ((view r t).name driver_id) x
            × AssignmentIs (view r t) ((view r t).name trip_id) x w w')
          (λ e w'.
            HalfAssigned (view r t) ((view r t).name trip_id) ((view r t).name driver_id) w w')
          (assign r a trip_id driver_id w)
  unfolding assign
  assign-IsFresh trip_id driver_id w =
      Ensures-parse (r.parse_id trip_id) _ w
        (λ is.
          Ensures-parse (r.parse_id driver_id) _ w
            (λ is2.
              let same = laws.now_law w in
              Ensures-bind (a.first (canonical (r.parse_id trip_id))) _ (r.now w).1
                (laws.first_law (canonical (r.parse_id trip_id)) (r.now w).1)
                (λ o w1 (found, same2).
                  assign_row-Ensures (canonical (r.parse_id trip_id))
                    (canonical (r.parse_id driver_id)) (r.now w).0 o w w1 (Same-trans same same2))
                (λ e w1 (_, same2). not_assigned (Untouched-Same t r (Same-trans same same2))))
            (λ e is2. not_assigned (Untouched-Same t r (Same-refl w))))
        (λ e is. not_assigned (Untouched-Same t r (Same-refl w)))

  abbrev answered : TripAssignmentStatus → Option ℕ → ℕ → TripAssignmentModel → TripAssignmentModel
  answered st at now m = record m {
    status = st;
    responded_at = response_time at st now;
    updated_at = now;
  }

  Changed-answered :
      (k d : String) (st : TripAssignmentStatus) (at : Option ℕ) (now : ℕ) (m : TripAssignmentModel)
      (w w1 w' : W)
      → Same t w w1
      → Changed laws k (λ m. m.driver_id == d) (answered st at now) w1 w' m
      → ((view r t).assignment w k ≡ some (to_trip_assignment m))
        × IsAnswered
            (view r t)
            d
            st
            (to_trip_assignment m)
            (to_trip_assignment (answered st at now m))
        × AssignmentIs (view r t) k (to_trip_assignment (answered st at now m)) w w'
  Changed-answered k d st at now m w w1 w' same (known, meets, wrote) =
      let of : m.driver_id ≡ d = (eq_iff m.driver_id d).0 meets in
      (
        ap shown (sym (ap (λ f. f k) same.assignments) ∙ known),
        record { id = refl; trip = refl; driver = of; was = of; status = refl },
        AssignmentIs-Wrote t r (Wrote-after same wrote),
      )

  shown-other :
      (d : String) (o : Option TripAssignmentModel) (x : TripAssignment)
      → ((m : TripAssignmentModel) → o ≡ some m → (m.driver_id == d) ≡ false)
      → shown o ≡ some x
      → (x.driver_id == d) ≡ false
  shown-other d none x never is = cc
  shown-other d (some m) x never is =
      let ex : to_trip_assignment m ≡ x = cc in
      subst (λ x. (x.driver_id == d) ≡ false) ex (never m refl)

  NotReread-answered :
      (k d : String) (st : TripAssignmentStatus) (at : Option ℕ) (now : ℕ) (e : Error) (w w1 w' : W)
      → Same t w w1
      → NotReread laws k (λ m. m.driver_id == d) (answered st at now) e w1 w'
      → HalfAnswered (view r t) k d e w w'
  NotReread-answered k d st at now e w w1 w' same (unmet never same2) =
      not_answered (Untouched-Same t r (Same-trans same same2)) (λ is. record {
        other = λ x known.
            shown-other d (t.assignment w1 k) x (never is)
              (ap (λ f. shown (f k)) same.assignments ∙ known);
      })
  NotReread-answered k d st at now e w w1 w' same (unread m other (known, meets, wrote)) =
      half_answered _ other (AssignmentIs-Wrote t r (Wrote-after same wrote))

  answered_row :
      (k d : String) (st : TripAssignmentStatus) (at : Option ℕ) (w : W)
      → Ensures
          (λ x w'.
            (old : TripAssignment) × ((view r t).assignment w k ≡ some old)
            × IsAnswered (view r t) d st old x
            × AssignmentIs (view r t) k x w w')
          (λ e w'. HalfAnswered (view r t) k d e w w')
          (reread r a k (a.update_of k d (answered st at (r.now w).0)) (r.now w).1)
  answered_row k d st at w =
      Ensures-mono
        (reread-Ensures laws k (λ m. m.driver_id == d) (answered st at (r.now w).0) _ (r.now w).1
          (laws.update_of_law k d (answered st at (r.now w).0) (r.now w).1 (λ m. refl)))
        (λ x w' (m, is, changed).
          let all =
            Changed-answered k d st at (r.now w).0 m w (r.now w).1 w' (laws.now_law w) changed in
          (
            to_trip_assignment m,
            all.0,
            subst (λ x. IsAnswered (view r t) d st (to_trip_assignment m) x) (sym is) all.1,
            subst (λ x. AssignmentIs (view r t) k x w w') (sym is) all.2,
          ))
        (λ e w' h. NotReread-answered k d st at (r.now w).0 e w (r.now w).1 w' (laws.now_law w) h)

  pub update_status-IsAnswered :
      (trip_id driver_id : String) (st : TripAssignmentStatus) (at : Option ℕ) (w : W)
      → Ensures
          (λ x w'.
            (old : TripAssignment) × ((view r t).assignment w ((view r t).name trip_id) ≡ some old)
            × IsAnswered (view r t) ((view r t).name driver_id) st old x
            × AssignmentIs (view r t) ((view r t).name trip_id) x w w')
          (λ e w'.
            HalfAnswered (view r t) ((view r t).name trip_id) ((view r t).name driver_id) e w w')
          (update_status r a trip_id driver_id st at w)
  unfolding update_status
  update_status-IsAnswered trip_id driver_id st at w =
      Ensures-parse (r.parse_id trip_id) _ w
        (λ is.
          Ensures-parse (r.parse_id driver_id) _ w
            (λ is2.
              answered_row (canonical (r.parse_id trip_id)) (canonical (r.parse_id driver_id)) st at
                w)
            (λ e bad.
              not_answered (Untouched-Same t r (Same-refl w))
                (λ nf. absurd (laws.parse_law driver_id e bad nf))))
        (λ e bad.
          not_answered (Untouched-Same t r (Same-refl w))
            (λ nf. absurd (laws.parse_law trip_id e bad nf)))
