-- ===== src/Trip/Location.antt =====
-- `SaveLocation` and `GetLatestLocation` of backend/internal/db/trip_repository.go: the place of a
-- trip as it was reported last.
use uitgo_monorepo.Base.{
  ℕ, String, ◌≡◌, refl, sym, ap, ◌∙◌, Option, none, some, List, ◌∷◌, [], All, ◌≤◌, ◌<◌, ◌⊎◌, inl,
  inr, eqb, if◌then◌else◌, arith, Bool-cases,
}
use mathlib.Core.Path.{subst}
use uitgo_monorepo.Errors.{Error}
use uitgo_monorepo.Base.Action.{checked, ok}
use uitgo_monorepo.Base.Action.Ensures.{
  checked-Kept, Result-cases, Ensures, returned, raised, Ensures-bind, Ensures-mono,
}
use uitgo_monorepo.Trip.{LocationUpdate}
use uitgo_monorepo.Trip.Store.{TripEventModel, Runtime, TripStore, canonical}
use uitgo_monorepo.Trip.Repository.{time_or_now, save_location, shown_event, get_latest_location}

abbrev pub IsIn : TripEventModel → List TripEventModel → Type 0
IsIn e [] = ⊥
IsIn e (x ∷ xs) = (e ≡ x) ⊎ IsIn e xs

abbrev pub IsOf : String → String → TripEventModel → Type 0
IsOf trip_id kind e = (e.trip_id ≡ trip_id) × (e.kind ≡ kind)

-- `Order("created_at DESC").First` of the events of one trip and one kind: any that no other is later
-- than, and none only where there is no such event.
pub data IsLatest (trip_id kind : String) (events : List TripEventModel)
    : Option TripEventModel → Type 0 where
  missing : All (λ e. ¬ (IsOf trip_id kind e)) events → IsLatest trip_id kind events none
  newest :
      {e : TripEventModel}
      → IsIn e events
      → All (λ x. IsOf trip_id kind x → x.created_at ≤ e.created_at) events
      → IsOf trip_id kind e
      → IsLatest trip_id kind events (some e)

-- Documented behaviour of the two statements on events, of the JSON form and of the clock: `events`
-- are the rows, and `Fault` tells the errors that a statement may fail with.
pub record IsEventStore {W : Type 0} (events : W → List TripEventModel) (r : Runtime W)
    (s : TripStore W) (Fault : Error → Type 0) : Type 0 where
  pub now_law : (w : W) → events ((r.now w).1) ≡ events w
  pub new_id_law : (w : W) → events ((r.new_id w).1) ≡ events w
  pub decode_law : (u : LocationUpdate) (p : String) → s.encode u ≡ ok p → s.decode p ≡ ok u
  pub create_event_law :
      (e : TripEventModel) (w : W)
      → Ensures
          (λ _ w'. events w' ≡ e ∷ events w)
          (λ _ w'. events w' ≡ events w)
          (s.create_event e w)
  pub read_event_law :
      (trip_id kind : String) (w : W)
      → Ensures
          (λ o w'. IsLatest trip_id kind (events w) o × (events w' ≡ events w))
          (λ e w'. Fault e × (events w' ≡ events w))
          (s.read_event trip_id kind w)

All-IsIn :
    (P : TripEventModel → Type 0) (e : TripEventModel) (events : List TripEventModel)
    → All P events
    → IsIn e events
    → P e
All-IsIn P e [] h is = elim is [ ]
All-IsIn P e (x ∷ xs) h (inl same) = subst P (sym same) h.0
All-IsIn P e (x ∷ xs) h (inr rest) = All-IsIn P e xs h.1 rest

not_before : {m n : ℕ} → m < n → n ≤ m → ⊥
not_before less more = omega arith

-- An event later than all others of its trip and kind is the latest.
IsLatest-first :
    {trip_id kind : String} (e : TripEventModel) (events : List TripEventModel)
    {o : Option TripEventModel}
    → IsOf trip_id kind e
    → All (λ x. IsOf trip_id kind x → x.created_at < e.created_at) events
    → IsLatest trip_id kind (e ∷ events) o
    → o ≡ some e
IsLatest-first e events is older (missing none_of) = elim (none_of.0 is) [ ]
IsLatest-first e events is older (newest (inl same) late of) = ap some same
IsLatest-first e events is older (newest {e = x} (inr rest) late of) =
    let before : x.created_at < e.created_at = All-IsIn _ x events older rest of in
    let after : e.created_at ≤ x.created_at = late.0 is in elim (not_before before after) [ ]

-- The time that is stored with an update.
abbrev pub reported_at : {W : Type 0} → Runtime W → LocationUpdate → W → ℕ
reported_at r update w = if eqb update.timestamp 0 then (r.now w).0 else update.timestamp

-- The update with the time that is stored with it.
abbrev pub reported : {W : Type 0} → Runtime W → LocationUpdate → W → LocationUpdate
reported r update w = record update { timestamp = reported_at r update w }

-- The time of a decoded update that has the time of its event, zero or not.
shown-same :
    (u : LocationUpdate) (at : ℕ)
    → u.timestamp ≡ at
    → record u { timestamp = if eqb u.timestamp 0 then at else u.timestamp } ≡ u
shown-same u at same = elim (Bool-cases (eqb u.timestamp 0)) [
  | inl zero ↦ rw zero (rw (sym same) refl)
  | inr other ↦ rw other refl
]

abbrev location_event : String → String → String → LocationUpdate → TripEventModel
location_event uid id payload u = record {
  id = id;
  trip_id = uid;
  kind = "location";
  payload = payload;
  created_at = u.timestamp;
}

module _ {W : Type 0} {events : W → List TripEventModel} {r : Runtime W} {s : TripStore W}
    {Fault : Error → Type 0} (laws : IsEventStore events r s Fault) where
  time_or_now-Kept :
      (update : LocationUpdate) (w : W)
      → Ensures
          (λ at w'. (at ≡ reported_at r update w) × (events w' ≡ events w))
          (λ e w'. events w' ≡ events w)
          (time_or_now r s update.timestamp w)
  unfolding time_or_now
  time_or_now-Kept update w = elim (Bool-cases (eqb update.timestamp 0)) [
    | inl zero ↦ rw zero (returned (refl, laws.now_law w))
    | inr other ↦ rw other (returned (refl, refl))
  ]

  -- The latest location where the rows begin with an event that is later than the others.
  get_latest_location-first :
      (trip_id uid : String) (e : TripEventModel) (u : LocationUpdate) (old : List TripEventModel)
      (w : W)
      → r.parse_id trip_id ≡ ok uid
      → events w ≡ e ∷ old
      → IsOf uid "location" e
      → All (λ x. IsOf uid "location" x → x.created_at < e.created_at) old
      → s.decode e.payload ≡ ok u
      → u.timestamp ≡ e.created_at
      → Ensures
          (λ o w'. (o ≡ some u) × (events w' ≡ events w))
          (λ c w'. Fault c × (events w' ≡ events w))
          (get_latest_location r s trip_id w)
  unfolding get_latest_location shown_event
  get_latest_location-first trip_id uid e u old w parsed rows is older decoded same = rw parsed (
      Ensures-bind (s.read_event uid "location") _ w (laws.read_event_law uid "location" w)
        (λ o w1 (latest, kept).
          rw
            (IsLatest-first e old is older (subst (λ es. IsLatest uid "location" es o) rows latest))
            (rw decoded (returned (ap some (shown-same u e.created_at same), kept))))
        (λ c w1 h. h))

  -- The event that is saved, and then the latest.
  create_event-latest :
      (trip_id uid id payload : String) (u : LocationUpdate) (w w1 : W)
      → r.parse_id trip_id ≡ ok uid
      → s.encode u ≡ ok payload
      → events w1 ≡ events w
      → All (λ x. IsOf uid "location" x → x.created_at < u.timestamp) (events w)
      → Ensures
          (λ _ w2.
            Ensures
              (λ o w'. (o ≡ some u) × (events w' ≡ events w2))
              (λ c w'. Fault c × (events w' ≡ events w2))
              (get_latest_location r s trip_id w2))
          (λ _ w2. events w2 ≡ events w)
          (s.create_event (location_event uid id payload u) w1)
  create_event-latest trip_id uid id payload u w w1 parsed encoded kept older =
      Ensures-mono (laws.create_event_law (location_event uid id payload u) w1)
        (λ _ w2 rows.
          get_latest_location-first trip_id uid (location_event uid id payload u) u (events w) w2
            parsed (rows ∙ ap (λ es. location_event uid id payload u ∷ es) kept) (refl, refl) older
            (laws.decode_law u payload encoded) refl)
        (λ _ w2 same. same ∙ kept)

  save_location-parsed :
      (trip_id uid : String) (update : LocationUpdate) (w : W)
      → r.parse_id trip_id ≡ ok uid
      → All (λ x. IsOf uid "location" x → x.created_at < reported_at r update w) (events w)
      → Ensures
          (λ _ w1.
            Ensures
              (λ o w'. (o ≡ some (reported r update w)) × (events w' ≡ events w1))
              (λ c w'. Fault c × (events w' ≡ events w1))
              (get_latest_location r s trip_id w1))
          (λ _ w1. events w1 ≡ events w)
          (save_location r s trip_id update w)
  unfolding save_location
  save_location-parsed trip_id uid update w parsed older = rw parsed (
      Ensures-bind (time_or_now r s update.timestamp) _ w (time_or_now-Kept update w)
        (λ at w1 (now, kept). rw now (
          Ensures-bind (checked (s.encode (reported r update w))) _ w1
            (checked-Kept (s.encode (reported r update w)) w1)
            (λ payload w2 (encoded, same).
              create_event-latest trip_id uid _ payload (reported r update w) w _ parsed encoded
                (laws.new_id_law w2 ∙ ap events same ∙ kept) older)
            (λ _ w2 same. ap events same ∙ kept)))
        (λ _ w1 kept. kept))

  -- After a location was saved whose time, that of the clock if it has none, is later than those of
  -- the locations of the trip so far, the latest location of the trip is the one that was saved, with
  -- that time: reading it fails only where the database does, and writes no event. A location that
  -- could not be saved leaves the events as they were.
  pub save_location-latest :
      (trip_id : String) (update : LocationUpdate) (w : W)
      → All
          (λ x.
            IsOf (canonical (r.parse_id trip_id)) "location" x
            → x.created_at < reported_at r update w)
          (events w)
      → Ensures
          (λ _ w1.
            Ensures
              (λ o w'. (o ≡ some (reported r update w)) × (events w' ≡ events w1))
              (λ c w'. Fault c × (events w' ≡ events w1))
              (get_latest_location r s trip_id w1))
          (λ _ w1. events w1 ≡ events w)
          (save_location r s trip_id update w)
  unfolding save_location
  save_location-latest trip_id update w older = elim (Result-cases (r.parse_id trip_id)) [
    | inl (uid, parsed) ↦ save_location-parsed trip_id uid update w parsed (
        subst
          (λ i. All (λ x. IsOf i "location" x → x.created_at < reported_at r update w) (events w))
          (ap canonical parsed) older)
    | inr (e, refused) ↦ rw refused (raised refl)
  ]
