-- ===== src/Live/Panics.antt =====
-- The only panic of a hub of backend/internal/http/handlers/ws.go.
use uitgo_monorepo.Base.{
  ℕ, zero, suc, String, ◌≡◌, refl, sym, ◌∙◌, Bool, true, false, ◌≤◌, Option, none, some, List, [],
  ◌∷◌, ◌++◌, ◌⊎◌, ap, All-append, get_elem?, if◌then◌else◌, inl, inr, All, length, length-append,
  ltb, arith, Bool-cases,
}
use mathlib.Core.Path.{subst}
use uitgo_monorepo.Live.{
  Client, capacity, new_client, drop_client, unregister_client, broadcast_client, snapshot_client,
  write_client, written_front, fail_write_client, failed_front, fail_ping_client, Pump, writing,
  stopped, while_writing, mark_left, leave_client, Hub, put_front, with_rest, modify, each, Event,
  registers, broadcasts, leaves, writes, fails_write, fails_ping, snapshots, step, and_then, run,
}

-- A client of the map has an open channel, and no channel holds more than its capacity.
pub record IsServed (c : Client) : Type 0 where
  pub open_law : c.in_hub ≡ true → c.closed ≡ false
  pub bounded : length c.buffer ≤ capacity

-- What holds of both branches of a test.
pub if_either : (P : Client → Type 0) (b : Bool) {x y : Client} → P x → P y → P (if b then x else y)
if_either P true p q = p
if_either P false p q = q

-- What a change of a client gives: a served client, or a panic.
abbrev pub Serves : Option Client → Type 0
Serves none = ⊥
Serves (some c) = IsServed c

Serves-if :
    (b : Bool) (x y : Option Client)
    → (b ≡ true → Serves x)
    → (b ≡ false → Serves y)
    → Serves (if b then x else y)
Serves-if true x y h k = h refl
Serves-if false x y h k = k refl

new_client-IsServed : IsServed new_client
new_client-IsServed = record { open_law = λ _. refl; bounded = omega arith }

drop_client-Serves : (c : Client) → IsServed c → c.closed ≡ false → Serves (drop_client c)
unfolding drop_client
drop_client-Serves c ok is =
    Serves-if c.closed _ _ (λ h. cc) (λ _. record { open_law = λ h. cc; bounded = ok.bounded })

unregister_client-Serves : (c : Client) → IsServed c → Serves (unregister_client c)
unfolding unregister_client
unregister_client-Serves c ok =
    Serves-if c.in_hub _ _ (λ is. drop_client-Serves c ok (ok.open_law is)) (λ _. ok)

queued-IsServed :
    (message : String) (c : Client)
    → IsServed c
    → ltb (length c.buffer) capacity ≡ true
    → IsServed (record c { buffer = c.buffer ++ message ∷ [] })
queued-IsServed message c ok room = record {
  open_law = ok.open_law;
  bounded = ground (arith, length-append c.buffer (message ∷ []));
}

broadcast_client-Serves :
    (message : String) (c : Client) → IsServed c → Serves (broadcast_client message c)
unfolding broadcast_client
broadcast_client-Serves message c ok =
    Serves-if c.in_hub _ _
      (λ is.
        Serves-if c.closed _ _ (λ h. cc (h, ok.open_law is))
          (λ open_yet.
            Serves-if (ltb (length c.buffer) capacity) _ _ (queued-IsServed message c ok)
              (λ _. drop_client-Serves c ok open_yet)))
      (λ _. ok)

while_writing-Serves :
    (p : Pump) (c' c : Client) → IsServed c' → IsServed c → IsServed (while_writing p c' c)
unfolding while_writing
while_writing-Serves writing c' c ok' ok = ok'
while_writing-Serves (stopped o) c' c ok' ok = ok

write_client-Serves : (c : Client) → IsServed c → Serves (write_client c)
unfolding write_client
write_client-Serves c ok =
    while_writing-Serves c.pump _ c (written_front-IsServed c.buffer ok.bounded) ok
  where
    written_front-IsServed :
        (buffer : List String) → length buffer ≤ capacity → IsServed (written_front c buffer)
    written_front-IsServed [] h =
        if_either IsServed c.closed (record { open_law = ok.open_law; bounded = ok.bounded }) ok
    written_front-IsServed (message ∷ rest) h = record {
      open_law = ok.open_law;
      bounded = omega arith;
    }

fail_write_client-Serves : (c : Client) → IsServed c → Serves (fail_write_client c)
unfolding fail_write_client
fail_write_client-Serves c ok =
    while_writing-Serves c.pump _ c (failed_front-IsServed c.buffer ok.bounded) ok
  where
    failed_front-IsServed :
        (buffer : List String) → length buffer ≤ capacity → IsServed (failed_front c buffer)
    failed_front-IsServed [] h = ok
    failed_front-IsServed (message ∷ rest) h = record {
      open_law = ok.open_law;
      bounded = omega arith;
    }

fail_ping_client-Serves : (c : Client) → IsServed c → Serves (fail_ping_client c)
unfolding fail_ping_client
fail_ping_client-Serves c ok =
    while_writing-Serves c.pump _ c (record { open_law = ok.open_law; bounded = ok.bounded }) ok

leave_client-Serves : (c : Client) → IsServed c → Serves (leave_client c)
unfolding leave_client
leave_client-Serves c ok =
    Serves-if c.left _ _ (λ _. ok)
      (λ _. marked (unregister_client c) (unregister_client-Serves c ok))
  where
    marked : (o : Option Client) → Serves o → Serves (mark_left o)
    marked none h = h
    marked (some c) h = record { open_law = h.open_law; bounded = h.bounded }

-- A hub whose clients are all served, or a panic.
abbrev pub AllServed : Option Hub → Type 0
AllServed none = ⊥
AllServed (some h) = All IsServed h

with_rest-AllServed :
    (o : Option Client) (h : Hub) → Serves o → All IsServed h → AllServed (with_rest o h)
with_rest-AllServed none h s ok = s
with_rest-AllServed (some c) h s ok = (s, ok)

put_front-AllServed :
    (o : Option Client) (h : Option Hub) → Serves o → AllServed h → AllServed (put_front o h)
put_front-AllServed none h s ok = s
put_front-AllServed (some c) none s ok = ok
put_front-AllServed (some c) (some h) s ok = (s, ok)

module _ (f : Client → Option Client) (serves : (c : Client) → IsServed c → Serves (f c)) where
  modify-AllServed : (i : ℕ) (h : Hub) → All IsServed h → AllServed (modify i f h)
  unfolding modify
  modify-AllServed i [] ok = tt
  modify-AllServed zero (c ∷ h) ok = with_rest-AllServed (f c) h (serves c ok.0) ok.1
  modify-AllServed (suc i) (c ∷ h) ok =
      put_front-AllServed (some c) (modify i f h) ok.0 (modify-AllServed i h ok.1)

  each-AllServed : (h : Hub) → All IsServed h → AllServed (each f h)
  unfolding each
  each-AllServed [] ok = tt
  each-AllServed (c ∷ h) ok =
      put_front-AllServed (f c) (each f h) (serves c ok.0) (each-AllServed h ok.1)

-- How a step ends: all are served, or it was a snapshot to a client whose channel is closed.
pub data Outcome (e : Event) (h : Hub) : Option Hub → Type 0 where
  lives : {h' : Hub} → All IsServed h' → Outcome e h (some h')
  panics :
      (i : ℕ) (message : String) (c : Client)
      → e ≡ snapshots i message
      → get_elem? h i ≡ some c
      → c.closed ≡ true
      → Outcome e h none

lives-Outcome : (e : Event) (h : Hub) (o : Option Hub) → AllServed o → Outcome e h o
lives-Outcome e h none bad = elim bad [ ]
lives-Outcome e h (some h') ok = lives ok

snapshot_client-cases :
    (message : String) (c : Client)
    → IsServed c
    → Serves (snapshot_client message c) ⊎ ((c.closed ≡ true) × (snapshot_client message c ≡ none))
unfolding snapshot_client
snapshot_client-cases message c ok = elim (Bool-cases c.closed) [
  | inl shut ↦ inr (shut, if_true c.closed _ shut)
  | inr open_yet ↦ inl (
      Serves-if c.closed _ _ (λ h. cc (h, open_yet))
        (λ _.
          Serves-if (ltb (length c.buffer) capacity) _ _ (queued-IsServed message c ok) (λ _. ok)))
]
  where
    if_true :
        (b : Bool) (x : Option Client)
        → b ≡ true
        → ◌≡◌ {A = Option Client} (if b then none else x) none
    if_true true x h = refl
    if_true false x h = cc

snapshot-cases :
    (i : ℕ) (message : String) (h : Hub)
    → All IsServed h
    → AllServed (modify i (snapshot_client message) h)
      ⊎ ((c : Client) × (get_elem? h i ≡ some c)
          × (c.closed ≡ true)
          × (modify i (snapshot_client message) h ≡ none))
unfolding modify
snapshot-cases i message [] ok = inl tt
snapshot-cases zero message (c ∷ h) ok = elim (snapshot_client-cases message c ok.0) [
  | inl s ↦ inl (with_rest-AllServed (snapshot_client message c) h s ok.1)
  | inr (shut, gone) ↦ inr (c, refl, shut, ap (λ o. with_rest o h) gone)
]
snapshot-cases (suc i) message (c ∷ h) ok = elim (snapshot-cases i message h ok.1) [
  | inl s ↦ inl (put_front-AllServed (some c) (modify i (snapshot_client message) h) ok.0 s)
  | inr (c', at, shut, gone) ↦ inr (c', at, shut, ap (put_front (some c)) gone)
]

pub step-Outcome : (e : Event) (h : Hub) → All IsServed h → Outcome e h (step e h)
unfolding step
step-Outcome registers h ok =
    lives (All-append IsServed h (new_client ∷ []) ok (new_client-IsServed, tt))
step-Outcome (broadcasts message) h ok =
    lives-Outcome _ h _
      (each-AllServed (broadcast_client message) (broadcast_client-Serves message) h ok)
step-Outcome (leaves i) h ok =
    lives-Outcome _ h _ (modify-AllServed leave_client leave_client-Serves i h ok)
step-Outcome (writes i) h ok =
    lives-Outcome _ h _ (modify-AllServed write_client write_client-Serves i h ok)
step-Outcome (fails_write i) h ok =
    lives-Outcome _ h _ (modify-AllServed fail_write_client fail_write_client-Serves i h ok)
step-Outcome (fails_ping i) h ok =
    lives-Outcome _ h _ (modify-AllServed fail_ping_client fail_ping_client-Serves i h ok)
step-Outcome (snapshots i message) h ok = elim (snapshot-cases i message h ok) [
  | inl s ↦ lives-Outcome _ h _ s
  | inr (c, at, shut, gone) ↦
      subst (Outcome (snapshots i message) h) (sym gone) (panics i message c refl at shut)
]

-- How a run ends: all clients of the map have open channels and no channel is overfull, or some
-- snapshot was sent to a client whose channel was closed.
pub data Ended (h : Hub) (es : List Event) : Option Hub → Type 0 where
  running : {h' : Hub} → All IsServed h' → Ended h es (some h')
  crashed :
      (before after : List Event) (i : ℕ) (message : String) (h' : Hub) (c : Client)
      → es ≡ before ++ snapshots i message ∷ after
      → run before h ≡ some h'
      → get_elem? h' i ≡ some c
      → c.closed ≡ true
      → Ended h es none

-- A run that goes on after its first step.
after_step :
    (e : Event) (es : List Event) (h : Hub) (o : Option Hub)
    → step e h ≡ o
    → Outcome e h o
    → ((h' : Hub) → All IsServed h' → Ended h' es (run es h'))
    → Ended h (e ∷ es) (and_then o (run es))
unfolding run
after_step e es h (some h') is (lives ok) rest = extended (run es h') (rest h' ok)
  where
    extended : (o : Option Hub) → Ended h' es o → Ended h (e ∷ es) o
    extended (some h2) (running ok2) = running ok2
    extended none (crashed before after i message h2 c split ran at shut) =
        crashed (e ∷ before) after i message h2 c (ap (λ t. e ∷ t) split)
          (ap (λ o. and_then o (run before)) is ∙ ran) at shut
after_step e es h none is (panics i message c same at shut) rest =
    crashed [] es i message h c (ap (λ x. x ∷ es) same) refl at shut

-- A hub whose clients are served panics only where the handler sends a snapshot to a client whose
-- channel the hub has closed: as long as it does not panic, every client of the map has an open
-- channel, which is closed once at most, and no channel holds more than its capacity.
pub run-Ended : (es : List Event) (h : Hub) → All IsServed h → Ended h es (run es h)
unfolding run
run-Ended [] h ok = running ok
run-Ended (e ∷ es) h ok =
    after_step e es h (step e h) refl (step-Outcome e h ok) (λ h' ok'. run-Ended es h' ok')
