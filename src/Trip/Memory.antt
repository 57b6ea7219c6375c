-- ===== src/Trip/Memory.antt =====
-- Trip events in memory: it shows that the laws of Trip/Location can hold. Its JSON form knows one
-- place at one time, and is refused for any other.
mod Tests
use uitgo_monorepo.Base.{
  ℕ, String, ◌≡◌, refl, sym, ap, ◌∙◌, ◌+◌, Bool, true, false, ◌&&◌, Option, none, some, List, ◌∷◌,
  [], All, ◌≤◌, ◌<◌, ◌⊎◌, inl, inr, eqb, ltb, ◌==◌, eq_iff, if◌then◌else◌, arith, Bool-cases,
}
use uitgo_monorepo.Base.Int.{pos}
use uitgo_monorepo.Errors.{external}
use uitgo_monorepo.Base.Action.{Result, ok, err}
use uitgo_monorepo.Base.Action.Ensures.{returned}
use uitgo_monorepo.Trip.{LocationUpdate}
use uitgo_monorepo.Trip.Store.{TripEventModel, Runtime, TripStore}
use uitgo_monorepo.Trip.Location.{IsIn, IsOf, IsLatest, missing, newest, IsEventStore}

pub record Memory : Type 0 where
  pub events : List TripEventModel
  pub clock : ℕ

is_of : String → String → TripEventModel → Bool
is_of trip_id kind e = (e.trip_id == trip_id) && (e.kind == kind)

later : TripEventModel → Option TripEventModel → Option TripEventModel
later e none = some e
later e (some x) = if ltb e.created_at x.created_at then some x else some e

latest_of : String → String → List TripEventModel → Option TripEventModel
unfolding later is_of
latest_of trip_id kind [] = none
latest_of trip_id kind (e ∷ events) =
    let rest = latest_of trip_id kind events in if is_of trip_id kind e then later e rest else rest

All-mono :
    {P Q : TripEventModel → Type 0} (events : List TripEventModel)
    → ((e : TripEventModel) → P e → Q e)
    → All P events
    → All Q events
All-mono [] f h = tt
All-mono (e ∷ events) f h = (f e h.0, All-mono events f h.1)

is_of-IsOf : (t k : String) (e : TripEventModel) → is_of t k e ≡ true → IsOf t k e
unfolding is_of
is_of-IsOf t k e h = elim (Bool-cases (e.trip_id == t)) [
  | inl same ↦ elim (Bool-cases (e.kind == k)) [
    | inl kind ↦ ((eq_iff e.trip_id t).0 same, (eq_iff e.kind k).0 kind)
    | inr other ↦ cc
  ]
  | inr other ↦ cc
]

IsOf-is_of : (t k : String) (e : TripEventModel) → IsOf t k e → is_of t k e ≡ true
unfolding is_of
IsOf-is_of t k e is = rw ((eq_iff e.trip_id t).1 is.0) (rw ((eq_iff e.kind k).1 is.1) refl)

later_le : {m n : ℕ} → ltb m n ≡ true → m ≤ n
later_le h = ground arith

not_later_le : {m n k : ℕ} → ltb m n ≡ false → k ≤ n → k ≤ m
not_later_le h less = ground arith

later-IsLatest :
    {t k : String} (e : TripEventModel) (events : List TripEventModel) {o : Option TripEventModel}
    → IsOf t k e
    → IsLatest t k events o
    → IsLatest t k (e ∷ events) (later e o)
unfolding later
later-IsLatest e events is (missing none_of) =
    newest (inl refl)
      (λ _. omega arith, All-mono events (λ x not_of of. elim (not_of of) [ ]) none_of) is
later-IsLatest e events is (newest {e = x} has late of) =
    elim (Bool-cases (ltb e.created_at x.created_at)) [
      | inl less ↦ rw less (newest (inr has) (λ _. later_le less, late) of)
      | inr more ↦ rw more (
          newest (inl refl)
            (λ _. omega arith, All-mono events (λ y h is_y. not_later_le more (h is_y)) late) is)
    ]

skipped-IsLatest :
    {t k : String} (e : TripEventModel) (events : List TripEventModel) {o : Option TripEventModel}
    → ¬ (IsOf t k e)
    → IsLatest t k events o
    → IsLatest t k (e ∷ events) o
skipped-IsLatest e events other (missing none_of) = missing (other, none_of)
skipped-IsLatest e events other (newest has late of) =
    newest (inr has) (λ is. elim (other is) [ ], late) of

latest_of-IsLatest :
    (t k : String) (events : List TripEventModel) → IsLatest t k events (latest_of t k events)
unfolding latest_of
latest_of-IsLatest t k [] = missing tt
latest_of-IsLatest t k (e ∷ events) = elim (Bool-cases (is_of t k e)) [
  | inl same ↦
      rw same (later-IsLatest e events (is_of-IsOf t k e same) (latest_of-IsLatest t k events))
  | inr other ↦ rw other (
      skipped-IsLatest e events (λ is. cc (other, IsOf-is_of t k e is))
        (latest_of-IsLatest t k events))
]

-- The place that the JSON form knows.
abbrev pub stop : LocationUpdate
stop = record { latitude = 10; longitude = 106; timestamp = 9 }

unfoldable encode : LocationUpdate → Result String
encode u =
    if eqb u.latitude 10 && eqb u.longitude 106 && eqb u.timestamp 9
    then ok "stop"
    else err (external 1)

is_stop :
    (u : LocationUpdate)
    → (eqb u.latitude 10 && eqb u.longitude 106 && eqb u.timestamp 9) ≡ true
    → u ≡ stop
is_stop u h =
    let lat : u.latitude ≡ 10 = ground arith in
    let lng : u.longitude ≡ 106 = ground arith in let at : u.timestamp ≡ 9 = ground arith in cc

encode-refused :
    (u : LocationUpdate)
    → (eqb u.latitude 10 && eqb u.longitude 106 && eqb u.timestamp 9) ≡ false
    → encode u ≡ err (external 1)
unfolding encode
encode-refused u other = rw other refl

encode-stop : (u : LocationUpdate) (p : String) → encode u ≡ ok p → u ≡ stop
unfolding encode
encode-stop u p h =
    elim (Bool-cases (eqb u.latitude 10 && eqb u.longitude 106 && eqb u.timestamp 9)) [
      | inl same ↦ is_stop u same
      | inr other ↦ cc (encode-refused u other, h)
    ]

abbrev pub runtime : Runtime Memory
runtime = record {
  parse_id = λ id. ok id;
  new_id = λ w. ("6ba7b810-9dad-11d1-80b4-00c04fd430c8", w);
  now = λ w. (w.clock + 1, record w { clock = w.clock + 1 });
}

unfoldable pub store : TripStore Memory
unfolding latest_of encode
store = record {
  encode = encode;
  decode = λ p. ok stop;
  create_trip = λ m w. (ok m, w);
  read_trip = λ k w. (ok none, w);
  update_trip = λ k f w. (ok 0, w);
  create_event = λ e w. (ok tt, record w { events = e ∷ w.events });
  read_event = λ t k w. (ok (latest_of t k w.events), w);
  read_count = λ p w. (ok (pos 0), w);
  read_trips = λ p limit offset w. (ok [], w);
  delete_events = λ w. (ok tt, record w { events = [] });
  delete_trips = λ w. (ok tt, w);
  transaction = λ body. body;
}

pub store-IsEventStore : IsEventStore (λ w. w.events) runtime store (λ e. ⊥)
unfolding store
store-IsEventStore = record {
  now_law = λ w. refl;
  new_id_law = λ w. refl;
  decode_law = λ u p h. ap ok (sym (encode-stop u p h));
  create_event_law = λ e w. returned refl;
  read_event_law = λ t k w. returned (latest_of-IsLatest t k w.events, refl);
}
