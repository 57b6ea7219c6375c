-- ===== src/Live/Delivery.antt =====
-- What a client of a hub of backend/internal/http/handlers/ws.go receives.
use mathlib.Core.Path.{subst}
use uitgo_monorepo.Base.{
  ℕ, zero, suc, String, ◌≡◌, refl, sym, ap, ◌∙◌, Option, none, some, List, [], ◌∷◌, ◌++◌, ◌⊎◌, inl,
  inr, All, get_elem?,
}
use uitgo_monorepo.Live.Changes.{Modified-at, Each-at, modify-Modified, each-Each}
use uitgo_monorepo.Live.Took.{
  Took, Took-nothing, Took-trans, broadcast_client-Took, write_client-Took, fail_write_client-Took,
  fail_ping_client-Took, leave_client-Took,
}
use uitgo_monorepo.Live.{
  Client, new_client, broadcast_client, snapshot_client, write_client, fail_write_client,
  fail_ping_client, leave_client, Hub, modify, Event, registers, broadcasts, leaves, writes,
  fails_write, fails_ping, snapshots, step, and_then, run,
}

-- The messages that are broadcast.
abbrev pub messages : List Event → List String
messages [] = []
messages (broadcasts message ∷ es) = message ∷ messages es
messages (registers ∷ es) = messages es
messages (leaves i ∷ es) = messages es
messages (writes i ∷ es) = messages es
messages (fails_write i ∷ es) = messages es
messages (fails_ping i ∷ es) = messages es
messages (snapshots i message ∷ es) = messages es

abbrev pub IsSnapshotOf : ℕ → Event → Type 0
IsSnapshotOf i (snapshots j message) = j ≡ i
IsSnapshotOf i registers = ⊥
IsSnapshotOf i (broadcasts message) = ⊥
IsSnapshotOf i (leaves j) = ⊥
IsSnapshotOf i (writes j) = ⊥
IsSnapshotOf i (fails_write j) = ⊥
IsSnapshotOf i (fails_ping j) = ⊥

-- The client at a place of a hub after a step or a run.
pub record Delivered (c : Client) (ms : List String) (h : Hub) (i : ℕ) : Type 0 where
  pub client : Client
  pub at : get_elem? h i ≡ some client
  pub took : Took c ms client

modified-Delivered :
    (j : ℕ) (f : Client → Option Client) (h : Hub) (i : ℕ) {h' : Hub} {c : Client}
    → modify j f h ≡ some h'
    → get_elem? h i ≡ some c
    → ((c' : Client) → j ≡ i → f c ≡ some c' → Took c [] c')
    → Delivered c [] h' i
modified-Delivered j f h i {c = c} is at took =
    let (c', at', how) = Modified-at (modify-Modified j f h is) i at in
    record { client = c'; at = at'; took = either c' how }
  where
    either : (c' : Client) → ((j ≡ i) × (f c ≡ some c')) ⊎ (c ≡ c') → Took c [] c'
    either c' (inl (same, changed)) = took c' same changed
    either c' (inr kept) =
        subst (Took c []) kept (Took-nothing c c refl refl (λ o stop. (stop, refl)))

get_elem?-append :
    (h : Hub) (i : ℕ) (more : Hub) {c : Client}
    → get_elem? h i ≡ some c
    → get_elem? (h ++ more) i ≡ some c
get_elem?-append [] i more at = cc
get_elem?-append (x ∷ h) zero more at = at
get_elem?-append (x ∷ h) (suc i) more at = get_elem?-append h i more at

step-Delivered :
    (e : Event) (h : Hub) (i : ℕ) {h' : Hub} {c : Client}
    → ¬ (IsSnapshotOf i e)
    → step e h ≡ some h'
    → get_elem? h i ≡ some c
    → Delivered c (messages (e ∷ [])) h' i
unfolding step
step-Delivered registers h i {h'} {c} other is at =
    let list : h ++ new_client ∷ [] ≡ h' = cc in
    record {
      client = c;
      at = ap (λ l. get_elem? l i) (sym list) ∙ get_elem?-append h i (new_client ∷ []) at;
      took = Took-nothing c c refl refl (λ o stop. (stop, refl));
    }
step-Delivered (broadcasts message) h i {c = c} other is at =
    let (c', at', sent) = Each-at (each-Each (broadcast_client message) h is) i at in
    record { client = c'; at = at'; took = broadcast_client-Took message c sent }
step-Delivered (leaves j) h i {c = c} other is at =
    modified-Delivered j leave_client h i is at (λ c' _ e. leave_client-Took c e)
step-Delivered (writes j) h i {c = c} other is at =
    modified-Delivered j write_client h i is at (λ c' _ e. write_client-Took c e)
step-Delivered (fails_write j) h i {c = c} other is at =
    modified-Delivered j fail_write_client h i is at (λ c' _ e. fail_write_client-Took c e)
step-Delivered (fails_ping j) h i {c = c} other is at =
    modified-Delivered j fail_ping_client h i is at (λ c' _ e. fail_ping_client-Took c e)
step-Delivered (snapshots j message) h i other is at =
    modified-Delivered j (snapshot_client message) h i is at (λ c' same _. elim (other same) [ ])

and_then-some :
    (o : Option Hub) (es : List Event) {h' : Hub}
    → and_then o (run es) ≡ some h'
    → (h : Hub) × (o ≡ some h) × (run es h ≡ some h')
and_then-some none es is = cc
and_then-some (some h) es is = (h, refl, is)

messages-cons : (e : Event) (es : List Event) → messages (e ∷ []) ++ messages es ≡ messages (e ∷ es)
messages-cons registers es = refl
messages-cons (broadcasts message) es = refl
messages-cons (leaves i) es = refl
messages-cons (writes i) es = refl
messages-cons (fails_write i) es = refl
messages-cons (fails_ping i) es = refl
messages-cons (snapshots i message) es = refl

-- Over any run that does not panic and sends no snapshot to the client, what its channel has taken
-- (what was written of it, the one message whose write failed, if one did, and what it still holds)
-- grows by a first part of the messages that were broadcast, in their order and without a gap; the
-- channel of a client that is still in the hub took them all, and one that was not in the hub took
-- none. Nothing is written to the client any more once writePump has returned.
pub run-Delivered :
    (es : List Event) (h : Hub) (i : ℕ) {h' : Hub} {c : Client}
    → All (λ e. ¬ (IsSnapshotOf i e)) es
    → run es h ≡ some h'
    → get_elem? h i ≡ some c
    → Delivered c (messages es) h' i
unfolding run
run-Delivered [] h i {h'} {c} other is at =
    let same : h ≡ h' = cc in
    record {
      client = c;
      at = ap (λ l. get_elem? l i) (sym same) ∙ at;
      took = Took-nothing c c refl refl (λ o stop. (stop, refl));
    }
run-Delivered (e ∷ es) h i {h'} {c} other is at =
    let (h1, first, rest) = and_then-some (step e h) es is in
    let d = step-Delivered e h i other.0 first at in
    let d' = run-Delivered es h1 i other.1 rest d.at in
    record {
      client = d'.client;
      at = d'.at;
      took = subst (λ ms. Took c ms d'.client) (messages-cons e es) (Took-trans d.took d'.took);
    }
