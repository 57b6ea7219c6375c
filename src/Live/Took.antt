-- ===== src/Live/Took.antt =====
-- What one step of a hub of backend/internal/http/handlers/ws.go puts into the channel of a client, and
-- what `writePump` takes from it.
use mathlib.Core.Path.{subst}
use mathlib.Core.List.{append_assoc, append-nil}
use uitgo_monorepo.Base.{
  String, ◌≡◌, refl, sym, ap, ◌∙◌, Bool, true, false, Option, none, some, List, [], ◌∷◌, ◌++◌, inl,
  inr, length, ltb, Bool-cases, if◌then◌else◌,
}
use uitgo_monorepo.Live.Panics.{if_either}
use uitgo_monorepo.Live.{
  Client, capacity, drop_client, unregister_client, broadcast_client, write_client, written_front,
  fail_write_client, failed_front, fail_ping_client, Pump, writing, stopped, while_writing,
  mark_left, leave_client,
}

-- The message that was taken from the channel and could not be written.
abbrev pub lost_message : Pump → List String
lost_message writing = []
lost_message (stopped none) = []
lost_message (stopped (some message)) = message ∷ []

-- What was put into the channel of a client: what was written of it, the one message whose write
-- failed, if one did, and what it still holds.
abbrev pub received : Client → List String
received c = (c.written ++ lost_message c.pump) ++ c.buffer

-- The channel of a client took a first part of the messages, and the rest was lost, which happens only
-- to one that the hub has dropped. Nothing is written any more once `writePump` has returned.
pub record Took (c : Client) (ms : List String) (c' : Client) : Type 0 where
  pub got : List String
  pub lost : List String
  pub split : ms ≡ got ++ lost
  pub taken : received c' ≡ received c ++ got
  pub all_law : c'.in_hub ≡ true → lost ≡ []
  pub none_law : c.in_hub ≡ false → (got ≡ []) × (c'.in_hub ≡ false)
  pub stopped_law :
      (o : Option String) → c.pump ≡ stopped o → (c'.pump ≡ stopped o) × (c'.written ≡ c.written)

if_some :
    {P : Type 0} (b : Bool) (x y : Option Client) {c : Client}
    → (if b then x else y) ≡ some c
    → (b ≡ true → x ≡ some c → P)
    → (b ≡ false → y ≡ some c → P)
    → P
if_some true x y h k l = k refl h
if_some false x y h k l = l refl h

-- Nothing is written once `writePump` has returned.
abbrev Halts : Client → Client → Type 0
Halts c c' =
    (o : Option String) → c.pump ≡ stopped o → (c'.pump ≡ stopped o) × (c'.written ≡ c.written)

pub Took-nothing :
    (c c' : Client) → received c' ≡ received c → c'.in_hub ≡ c.in_hub → Halts c c' → Took c [] c'
Took-nothing c c' same hub halts = record {
  got = [];
  lost = [];
  split = refl;
  taken = same ∙ sym (append-nil (received c));
  all_law = λ _. refl;
  none_law = λ out. (refl, hub ∙ out);
  stopped_law = halts;
}

-- A client that the hub drops, or had dropped, loses all.
Took-dropped :
    (c : Client) (ms : List String) (c' : Client)
    → received c' ≡ received c
    → c'.in_hub ≡ false
    → Halts c c'
    → Took c ms c'
Took-dropped c ms c' same out halts = record {
  got = [];
  lost = ms;
  split = refl;
  taken = same ∙ sym (append-nil (received c));
  all_law = λ h. cc (h, out);
  none_law = λ _. (refl, out);
  stopped_law = halts;
}

pub Took-trans :
    {c c1 c2 : Client} {ms ns : List String} → Took c ms c1 → Took c1 ns c2 → Took c (ms ++ ns) c2
Took-trans {c} {c1} {c2} {ms} {ns} a b = elim (Bool-cases c1.in_hub) [
  | inl inside ↦
      let whole : ms ≡ a.got = a.split ∙ ap (◌++◌ a.got) (a.all_law inside) ∙ append-nil a.got in
      record {
        got = a.got ++ b.got;
        lost = b.lost;
        split =
            ap (λ x. x ++ ns) whole
            ∙ ap (◌++◌ a.got) b.split
            ∙ sym (append_assoc a.got b.got b.lost);
        taken = b.taken ∙ ap (λ x. x ++ b.got) a.taken ∙ append_assoc (received c) a.got b.got;
        all_law = b.all_law;
        none_law = λ out. cc (inside, (a.none_law out).1);
        stopped_law = both;
      }
  | inr outside ↦ record {
    got = a.got;
    lost = a.lost ++ ns;
    split = ap (λ x. x ++ ns) a.split ∙ append_assoc a.got a.lost ns;
    taken =
        b.taken
        ∙ ap (◌++◌ (received c1)) ((b.none_law outside).0)
        ∙ append-nil (received c1)
        ∙ a.taken;
    all_law = λ h. cc (h, (b.none_law outside).1);
    none_law = λ out. ((a.none_law out).0, (b.none_law outside).1);
    stopped_law = both;
  }
]
  where
    both : Halts c c2
    both o is =
        let (is1, same1) = a.stopped_law o is in
        let (is2, same2) = b.stopped_law o is1 in (is2, same2 ∙ same1)

drop_client-Took :
    (c : Client) (ms : List String) {c' : Client} → drop_client c ≡ some c' → Took c ms c'
unfolding drop_client
drop_client-Took c ms {c'} h =
    if_some c.closed _ _ h (λ _ bad. cc)
      (λ _ is.
        let same : record c { in_hub = false; closed = true } ≡ c' = cc in
        subst (Took c ms) same (Took-dropped c ms _ refl refl (λ o stop. (stop, refl))))

received-append :
    (c : Client) (message : String)
    → received (record c { buffer = c.buffer ++ message ∷ [] }) ≡ received c ++ message ∷ []
received-append c message =
    sym (append_assoc (c.written ++ lost_message c.pump) c.buffer (message ∷ []))

pub broadcast_client-Took :
    (message : String) (c : Client) {c' : Client}
    → broadcast_client message c ≡ some c'
    → Took c (message ∷ []) c'
unfolding broadcast_client
broadcast_client-Took message c {c'} h =
    if_some c.in_hub _ _ h
      (λ inside h1.
        if_some c.closed _ _ h1 (λ _ bad. cc)
          (λ _ h2.
            if_some (ltb (length c.buffer) capacity) _ _ h2
              (λ _ h3.
                let is : record c { buffer = c.buffer ++ message ∷ [] } ≡ c' = cc in
                subst (Took c (message ∷ [])) is (record {
                  got = message ∷ [];
                  lost = [];
                  split = refl;
                  taken = received-append c message;
                  all_law = λ _. refl;
                  none_law = λ out. cc (inside, out);
                  stopped_law = λ o stop. (stop, refl);
                }))
              (λ _ h3. drop_client-Took c (message ∷ []) h3)))
      (λ outside h1.
        let is : c ≡ c' = cc in
        subst (Took c (message ∷ [])) is (Took-dropped c _ c refl outside (λ o stop. (stop, refl))))

-- A step of `writePump` puts nothing into the channel, and is none after it has returned.
while_writing-Took :
    (p : Pump) (c c' : Client)
    → c.pump ≡ p
    → (c.pump ≡ writing → (received c' ≡ received c) × (c'.in_hub ≡ c.in_hub))
    → Took c [] (while_writing p c' c)
unfolding while_writing
while_writing-Took writing c c' is moved =
    let (same, hub) = moved is in Took-nothing c c' same hub (λ o stop. cc (is, stop))
while_writing-Took (stopped o) c c' is moved = Took-nothing c c refl refl (λ o stop. (stop, refl))

pub write_client-Took : (c : Client) {c' : Client} → write_client c ≡ some c' → Took c [] c'
unfolding write_client written_front
write_client-Took c {c'} h =
    let is : while_writing c.pump (written_front c c.buffer) c ≡ c' = cc in
    subst (Took c []) is (while_writing-Took c.pump c _ refl (λ runs. front runs c.buffer refl))
  where
    whole :
        {l : List String}
        → c.pump ≡ writing
        → c.buffer ≡ l
        → (c.written ++ lost_message writing) ++ l ≡ received c
    whole runs e = cc (runs, e)

    front :
        c.pump ≡ writing
        → (buffer : List String) → c.buffer ≡ buffer
        → (received (written_front c buffer) ≡ received c)
          × ((written_front c buffer).in_hub ≡ c.in_hub)
    front runs [] e =
        if_either (λ c'. (received c' ≡ received c) × (c'.in_hub ≡ c.in_hub)) c.closed
          (ap (λ p. (c.written ++ lost_message p) ++ c.buffer) (sym runs), refl) (refl, refl)
    front runs (message ∷ rest) e = (
      ap (λ p. ((c.written ++ message ∷ []) ++ lost_message p) ++ rest) runs
          ∙ ap (λ l. l ++ rest) (append-nil (c.written ++ message ∷ []))
          ∙ append_assoc c.written (message ∷ []) rest
          ∙ ap (λ l. l ++ message ∷ rest) (sym (append-nil c.written))
          ∙ whole runs e,
      refl,
    )

pub fail_write_client-Took :
    (c : Client) {c' : Client} → fail_write_client c ≡ some c' → Took c [] c'
unfolding fail_write_client failed_front
fail_write_client-Took c {c'} h =
    let is : while_writing c.pump (failed_front c c.buffer) c ≡ c' = cc in
    subst (Took c []) is (while_writing-Took c.pump c _ refl (λ runs. front runs c.buffer refl))
  where
    whole :
        {l : List String}
        → c.pump ≡ writing
        → c.buffer ≡ l
        → (c.written ++ lost_message writing) ++ l ≡ received c
    whole runs e = cc (runs, e)

    front :
        c.pump ≡ writing
        → (buffer : List String) → c.buffer ≡ buffer
        → (received (failed_front c buffer) ≡ received c)
          × ((failed_front c buffer).in_hub ≡ c.in_hub)
    front runs [] e = (refl, refl)
    front runs (message ∷ rest) e = (
      append_assoc c.written (message ∷ []) rest
          ∙ ap (λ l. l ++ message ∷ rest) (sym (append-nil c.written))
          ∙ whole runs e,
      refl,
    )

pub fail_ping_client-Took : (c : Client) {c' : Client} → fail_ping_client c ≡ some c' → Took c [] c'
unfolding fail_ping_client
fail_ping_client-Took c {c'} h =
    let is : while_writing c.pump (record c { pump = stopped none }) c ≡ c' = cc in
    subst (Took c []) is (
      while_writing-Took c.pump c _ refl
        (λ runs. (ap (λ p. (c.written ++ lost_message p) ++ c.buffer) (sym runs), refl)))

pub leave_client-Took : (c : Client) {c' : Client} → leave_client c ≡ some c' → Took c [] c'
unfolding leave_client unregister_client
leave_client-Took c {c'} h =
    if_some c.left _ _ h (λ _ is. kept c c' is)
      (λ _ h1. marked (unregister_client c) h1 (λ c2 h2. unregistered c2 h2))
  where
    kept : (c c' : Client) → some c ≡ some c' → Took c [] c'
    kept c c' is =
        let e : c ≡ c' = cc in
        subst (Took c []) e (Took-nothing c c refl refl (λ o stop. (stop, refl)))

    unregistered : (c2 : Client) → unregister_client c ≡ some c2 → Took c [] c2
    unregistered c2 h2 =
        if_some c.in_hub _ _ h2 (λ _ h3. drop_client-Took c [] h3) (λ _ h3. kept c c2 h3)

    marked :
        (o : Option Client)
        → mark_left o ≡ some c'
        → ((c2 : Client) → o ≡ some c2 → Took c [] c2)
        → Took c [] c'
    marked none bad k = cc
    marked (some c2) is k =
        let t = k c2 refl in
        let e : record c2 { left = true } ≡ c' = cc in
        subst (Took c []) e (record {
          got = t.got;
          lost = t.lost;
          split = t.split;
          taken = t.taken;
          all_law = t.all_law;
          none_law = t.none_law;
          stopped_law = t.stopped_law;
        })
