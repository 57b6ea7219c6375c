-- ===== src/Notification/Pushing.antt =====
-- To whom backend/internal/notification/service.go sends, and what its calls keep.
use uitgo_monorepo.Base.{
  String, ◌≡◌, refl, false, Option, none, some, List, [], ◌∷◌, All, Bool-cases, inl, inr,
}
use uitgo_monorepo.Base.Text.{is_empty, trim_space}
use uitgo_monorepo.Base.Action.{Action, pure}
use uitgo_monorepo.Base.Action.Ensures.{Ensures, returned, Ensures-bind, Ensures-if}
use uitgo_monorepo.Trip.{TripStatus, Trip, arriving, completed}
use uitgo_monorepo.Driver.{Driver}
use uitgo_monorepo.Notification.{
  Notification, DeviceToken, NotificationRepository, DeviceTokenRepository, PushMessage, Sender,
  Service, push_tokens, stored, sent, pushed, send, notify_driver_trip_assigned,
  notify_rider_status_change, notifier,
}

-- A text that `strings.TrimSpace` returned, and not an empty one.
pub record IsText (t : String) : Type 0 where
  pub original : String
  pub trimmed : t ≡ trim_space original
  pub not_empty : is_empty t ≡ false

push_tokens-All : (ts : List DeviceToken) → All IsText (push_tokens ts)
unfolding push_tokens
push_tokens-All [] = tt
push_tokens-All (t ∷ ts) = elim (Bool-cases (is_empty (trim_space t.token))) [
  | inl blank ↦ rw blank (push_tokens-All ts)
  | inr text ↦
      rw text (record { original = t.token; trimmed = refl; not_empty = text }, push_tokens-All ts)
]

-- A call that keeps `I`, whether it returns or fails.
abbrev pub Keeps : {W A : Type 0} → (W → Type 0) → Action W A → Type 0
Keeps {W} I m = (w : W) → I w → Ensures (λ a w'. I w') (λ e w'. I w') (m w)

-- What the parts of a service keep: its sender need keep `I` only where it is given tokens, each
-- trimmed and not empty.
pub record PartsKeep {W : Type 0} (I : W → Type 0) (s : Service W) : Type 0 where
  pub create_law :
      (r : NotificationRepository W) (n : Notification) → s.repo ≡ some r → Keeps I (r.create n)
  pub list_law :
      (r : DeviceTokenRepository W) (us : List String)
      → s.tokens ≡ some r
      → Keeps I (r.list_by_users us)
  pub send_law :
      (x : Sender W) (t : String) (ts : List String) (m : PushMessage)
      → s.sender ≡ some x
      → All IsText (t ∷ ts)
      → Keeps I (x.send (t ∷ ts) m)

module _ {W : Type 0} {I : W → Type 0} {s : Service W} (laws : PartsKeep I s) where
  nothing : Keeps I (pure tt)
  nothing w i = returned i

  stored-Keeps :
      (o : Option (NotificationRepository W)) (n : Notification) → s.repo ≡ o → Keeps I (stored o n)
  unfolding stored
  stored-Keeps none n is w i = returned i
  stored-Keeps (some r) n is w i =
      Ensures-if (is_empty n.kind) _ _ w (λ _. returned i) (λ _. laws.create_law r n is w i)

  sent-Keeps :
      (x : Sender W) (ts : List String) (m : PushMessage)
      → s.sender ≡ some x
      → All IsText ts
      → Keeps I (sent x ts m)
  unfolding sent
  sent-Keeps x [] m is texts w i = returned i
  sent-Keeps x (t ∷ ts) m is texts w i = laws.send_law x t ts m is texts w i

  pushed-Keeps :
      (o : Option (DeviceTokenRepository W)) (x : Option (Sender W)) (u : String) (m : PushMessage)
      → s.tokens ≡ o
      → s.sender ≡ x
      → Keeps I (pushed o x u m)
  unfolding pushed
  pushed-Keeps none x u m is is2 w i = returned i
  pushed-Keeps (some r) none u m is is2 w i = returned i
  pushed-Keeps (some r) (some x) u m is is2 w i =
      Ensures-bind (r.list_by_users (u ∷ [])) _ w (laws.list_law r (u ∷ []) is w i)
        (λ tokens w1 i1. sent-Keeps x (push_tokens tokens) m is2 (push_tokens-All tokens) w1 i1)
        (λ e w1 i1. i1)

  send-Keeps :
      (u k title body : String) (trip : Option String) (meta : List (String × String))
      → Keeps I (send s u k title body trip meta)
  unfolding send
  send-Keeps u k title body trip meta w i =
      Ensures-bind (stored s.repo _) _ w (stored-Keeps s.repo _ refl w i)
        (λ a w1 i1. pushed-Keeps s.tokens s.sender u _ refl refl w1 i1) (λ e w1 i1. i1)

  rider-Keeps : (t : Trip) (st : TripStatus) → Keeps I (notify_rider_status_change s t st)
  unfolding notify_rider_status_change
  rider-Keeps t arriving w i =
      Ensures-if (is_empty t.rider_id) _ _ w (λ _. returned i) (λ _. send-Keeps _ _ _ _ _ _ w i)
  rider-Keeps t completed w i =
      Ensures-if (is_empty t.rider_id) _ _ w (λ _. returned i) (λ _. send-Keeps _ _ _ _ _ _ w i)
  rider-Keeps t _ w i = returned i

  driver-Keeps : (d : Driver) (t : Trip) → Keeps I (notify_driver_trip_assigned s d t)
  unfolding notify_driver_trip_assigned
  driver-Keeps d t w i =
      Ensures-if (is_empty d.user_id) _ _ w (λ _. returned i) (λ _. send-Keeps _ _ _ _ _ _ w i)

  -- Both notifications keep whatever the store of notifications, the store of tokens and the sender
  -- keep, where the sender need keep it only if it is given at least one token, and each of them is a
  -- trimmed text that is not empty: it is never called otherwise.
  pub notifier-Keeps :
      (d : Driver) (t : Trip) (st : TripStatus)
      → Keeps I ((notifier s).notify_rider_status_change t st)
        × Keeps I ((notifier s).notify_driver_trip_assigned d t)
  unfolding notifier
  notifier-Keeps d t st = (rider-Keeps t st, driver-Keeps d t)
