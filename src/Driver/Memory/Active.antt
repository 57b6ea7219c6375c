-- ===== src/Driver/Memory/Active.antt =====
-- In the database in memory, the active assignment of a driver is the one that changed last.
use mathlib.Core.Path.{subst}
use uitgo_monorepo.Base.{
  String, ◌≡◌, ◌≤◌, refl, sym, ap, ◌∙◌, Bool, true, false, Option, none, some, List, [], ◌∷◌, ◌==◌,
  ◌&&◌, eq_iff, arith, ltb, Bool-cases, Option-cases, inl, inr,
}
use uitgo_monorepo.Driver.{TripAssignment}
use uitgo_monorepo.Driver.Assignments.{TripAssignmentModel, shown, to_trip_assignment}
use uitgo_monorepo.Driver.Service.Dispatch.Laws.{is_open, IsActive, Newest, idle, busy}
use uitgo_monorepo.Driver.Service.Dispatch.Database.{view}
use uitgo_monorepo.Driver.Memory.{
  Memory, assignment_of, newer, open_row, newest_of, active_of, tables, runtime,
}

-- An open row of the driver that the table holds.
record IsOpen (rows : List TripAssignmentModel) (d : String) (m : TripAssignmentModel)
    : Type 0 where
  held : assignment_of rows m.trip_id ≡ some m
  driver : m.driver_id ≡ d
  open_yet : is_open m.status ≡ true

abbrev OpenOrNone : List TripAssignmentModel → String → Option TripAssignmentModel → Type 0
OpenOrNone rows d none = Unit
OpenOrNone rows d (some m) = IsOpen rows d m

-- A row that changed when `m` did, or later.
abbrev Later : TripAssignmentModel → Option TripAssignmentModel → Type 0
Later m none = ⊥
Later m (some n) = m.updated_at ≤ n.updated_at

assignment_of-key :
    (rows : List TripAssignmentModel) (k : String) (m : TripAssignmentModel)
    → assignment_of rows k ≡ some m
    → m.trip_id ≡ k
unfolding assignment_of
assignment_of-key [] k m e = cc
assignment_of-key (r ∷ rows) k m e = ground (arith, eq_iff r.trip_id k, assignment_of-key rows k m)

newer-OpenOrNone :
    (rows : List TripAssignmentModel) (d : String) (o p : Option TripAssignmentModel)
    → OpenOrNone rows d o
    → OpenOrNone rows d p
    → OpenOrNone rows d (newer o p)
unfolding newer
newer-OpenOrNone rows d none p h k = k
newer-OpenOrNone rows d (some m) none h k = h
newer-OpenOrNone rows d (some m) (some n) h k = elim (Bool-cases (ltb m.updated_at n.updated_at)) [
  | inl less ↦ rw less k
  | inr not_less ↦ rw not_less h
]

open_row-OpenOrNone :
    (rows : List TripAssignmentModel) (d k : String)
    → OpenOrNone rows d (open_row d (assignment_of rows k))
unfolding open_row
open_row-OpenOrNone rows d k = elim (Option-cases (assignment_of rows k)) [
  | inl missing ↦ rw missing tt
  | inr (m, is) ↦ rw is (elim (Bool-cases ((m.driver_id == d) && is_open m.status)) [
    | inl good ↦
        let (mine, open_yet) = both (m.driver_id == d) (is_open m.status) good in
        rw good (record {
          held = ap (assignment_of rows) (assignment_of-key rows k m is) ∙ is;
          driver = (eq_iff m.driver_id d).0 mine;
          open_yet = open_yet;
        })
    | inr bad ↦ rw bad tt
  ])
]
  where
    both : (a b : Bool) → a && b ≡ true → (a ≡ true) × (b ≡ true)
    both a b h = (ground arith, ground arith)

newest_of-OpenOrNone :
    (rows ms : List TripAssignmentModel) (d : String) → OpenOrNone rows d (newest_of rows ms d)
unfolding newest_of
newest_of-OpenOrNone rows [] d = tt
newest_of-OpenOrNone rows (m ∷ ms) d =
    newer-OpenOrNone rows d (open_row d (assignment_of rows m.trip_id)) (newest_of rows ms d)
      (open_row-OpenOrNone rows d m.trip_id) (newest_of-OpenOrNone rows ms d)

newer-left : (m : TripAssignmentModel) (p : Option TripAssignmentModel) → Later m (newer (some m) p)
unfolding newer
newer-left m none = omega arith
newer-left m (some n) = elim (Bool-cases (ltb m.updated_at n.updated_at)) [
  | inl less ↦ rw less (later less)
  | inr not_less ↦ rw not_less (omega arith)
]
  where
    later : ltb m.updated_at n.updated_at ≡ true → m.updated_at ≤ n.updated_at
    later less = ground arith

newer-right :
    (m : TripAssignmentModel) (o p : Option TripAssignmentModel) → Later m p → Later m (newer o p)
unfolding newer
newer-right m none p h = h
newer-right m (some x) none h = elim h [ ]
newer-right m (some x) (some n) h = elim (Bool-cases (ltb x.updated_at n.updated_at)) [
  | inl less ↦ rw less h
  | inr not_less ↦ rw not_less (later not_less)
]
  where
    later : ltb x.updated_at n.updated_at ≡ false → m.updated_at ≤ x.updated_at
    later not_less = ground arith

-- An open row of the driver that is found is not older than the newest.
newest_of-Later :
    (rows ms : List TripAssignmentModel) (d k : String) (x m : TripAssignmentModel)
    → assignment_of ms k ≡ some x
    → assignment_of rows k ≡ some m
    → m.driver_id ≡ d
    → is_open m.status ≡ true
    → Later m (newest_of rows ms d)
unfolding newest_of assignment_of open_row
newest_of-Later rows [] d k x m here at mine open_yet = cc
newest_of-Later rows (r ∷ ms) d k x m here at mine open_yet = elim (Bool-cases (r.trip_id == k)) [
  | inl is ↦
      let row : open_row d (assignment_of rows r.trip_id) ≡ some m =
        ap (λ j. open_row d (assignment_of rows j)) ((eq_iff r.trip_id k).0 is)
        ∙ ap (open_row d) at
        ∙ chosen in
      subst (λ o. Later m (newer o (newest_of rows ms d))) (sym row)
        (newer-left m (newest_of rows ms d))
  | inr other ↦
      newer-right m (open_row d (assignment_of rows r.trip_id)) (newest_of rows ms d)
        (newest_of-Later rows ms d k x m (further other) at mine open_yet)
]
  where
    chosen : open_row d (some m) ≡ some m
    chosen = rw ((eq_iff m.driver_id d).1 mine) (rw open_yet refl)

    step : (r.trip_id == k) ≡ false → assignment_of (r ∷ ms) k ≡ assignment_of ms k
    step other = rw other refl

    further : (r.trip_id == k) ≡ false → assignment_of ms k ≡ some x
    further other = sym (step other) ∙ here

-- A row that is shown.
shown-some :
    (o : Option TripAssignmentModel) (a : TripAssignment)
    → shown o ≡ some a
    → (m : TripAssignmentModel) × (o ≡ some m) × (to_trip_assignment m ≡ a)
shown-some none a h = cc
shown-some (some m) a h = (m, refl, cc)

found-Later :
    (w : Memory) (d k : String) (a : TripAssignment)
    → shown (assignment_of w.assignments k) ≡ some a
    → a.driver_id ≡ d
    → is_open a.status ≡ true
    → (m : TripAssignmentModel) × (to_trip_assignment m ≡ a) × Later m (active_of w.assignments d)
found-Later w d k a there mine open_yet =
    let (m, at, is) = shown-some (assignment_of w.assignments k) a there in
    (
      m,
      is,
      newest_of-Later w.assignments w.assignments d k m m at at (ap (λ x. x.driver_id) is ∙ mine)
          (ap (λ x. is_open x.status) is ∙ open_yet),
    )

pub active_of-Newest :
    (d : String) (w : Memory) → Newest (view runtime tables) d w (shown (active_of w.assignments d))
active_of-Newest d w =
    chosen (active_of w.assignments d) refl (newest_of-OpenOrNone w.assignments w.assignments d)
  where
    closed :
        (k : String) (a : TripAssignment)
        → shown (assignment_of w.assignments k) ≡ some a
        → a.driver_id ≡ d
        → active_of w.assignments d ≡ none
        → is_open a.status ≡ false
    closed k a there mine is = elim (Bool-cases (is_open a.status)) [
      | inl open_yet ↦
          let (m, same, later) = found-Later w d k a there mine open_yet in
          absurd (subst (Later m) is later)
      | inr shut ↦ shut
    ]

    not_older :
        (b : TripAssignment) (m : TripAssignmentModel)
        → active_of w.assignments d ≡ some m
        → IsActive (view runtime tables) d w b
        → b.updated_at ≤ m.updated_at
    not_older b m is active =
        let (n, same, later) =
          found-Later w d b.trip_id b active.held active.driver active.open_yet in
        subst (λ t. t ≤ m.updated_at) (ap (λ x. x.updated_at) same) (subst (Later n) is later)

    chosen :
        (o : Option TripAssignmentModel)
        → active_of w.assignments d ≡ o
        → OpenOrNone w.assignments d o
        → Newest (view runtime tables) d w (shown o)
    chosen none is h = idle (λ k a there mine. closed k a there mine is)
    chosen (some m) is h =
        busy (to_trip_assignment m)
          (record { held = ap shown h.held; driver = h.driver; open_yet = h.open_yet })
          (λ b active. not_older b m is active)
