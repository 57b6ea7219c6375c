-- ===== src/Matching/Handling.antt =====
-- What happens to a message of the matching queue (backend/internal/matching/sqs_queue.go).
use uitgo_monorepo.Base.{String, ◌≡◌, refl, Option, none, some, List, [], ◌∷◌}
use uitgo_monorepo.Errors.{Error}
use uitgo_monorepo.Base.Action.{Result, ok, err, Action}
use uitgo_monorepo.Base.Action.Ensures.{Ensures, returned, Ensures-mono, Ensures-bind}
use uitgo_monorepo.Matching.{
  TripEvent, Message, SqsQueue, settled, handled, handled_parts, process_sqs_message, process_all,
}

-- The handle and the event of a message that has both.
abbrev read_as : String → Result TripEvent → Option (String × TripEvent)
read_as handle (err e) = none
read_as handle (ok event) = some (handle, event)

abbrev read_parts :
    (String → Result TripEvent) → Option String → Option String → Option (String × TripEvent)
read_parts decode (some body) (some handle) = read_as handle (decode body)
read_parts decode _ _ = none

abbrev pub read_event : (String → Result TripEvent) → Message → Option (String × TripEvent)
read_event decode msg = read_parts decode msg.body msg.receipt_handle

module _ {W : Type 0} (q : SqsQueue W) (decode : String → Result TripEvent)
    (handler : TripEvent → Action W (Unit {0})) where
  -- What became of a message: it is deleted only after its event was handled without an error.
  pub data Processed (msg : Message) (w : W) : W → Type 0 where
    unread : read_event decode msg ≡ none → Processed msg w w
    failed :
        (handle : String) (event : TripEvent) (e : Error) (w' : W)
        → read_event decode msg ≡ some (handle, event)
        → handler event w ≡ (err e, w')
        → Processed msg w w'
    deleted :
        (handle : String) (event : TripEvent) (w' : W)
        → read_event decode msg ≡ some (handle, event)
        → handler event w ≡ (ok tt, w')
        → Processed msg w (q.client.delete_message q.queue_url handle w').1

  pub data AllProcessed : List Message → W → W → Type 0 where
    done : {w : W} → AllProcessed [] w w
    next :
        {msg : Message} {msgs : List Message} {a b c : W}
        → Processed msg a b
        → AllProcessed msgs b c
        → AllProcessed (msg ∷ msgs) a c

  settled-Processed :
      (msg : Message) (handle : String) (event : TripEvent) (x : Result (Unit {0}) × W) (w : W)
      → read_event decode msg ≡ some (handle, event)
      → handler event w ≡ x
      → Ensures (λ u w'. Processed msg w w') (λ e w'. ⊥) (settled q handle x.0 x.1)
  unfolding settled
  settled-Processed msg handle event (err e, w') w is ran =
      returned (failed handle event e w' is ran)
  settled-Processed msg handle event (ok u, w') w is ran = returned (deleted handle event w' is ran)

  handled-Processed :
      (msg : Message) (handle : String) (r : Result TripEvent) (w : W)
      → read_event decode msg ≡ read_as handle r
      → Ensures (λ u w'. Processed msg w w') (λ e w'. ⊥) (handled q handle handler r w)
  unfolding handled
  handled-Processed msg handle (err e) w is = returned (unread is)
  handled-Processed msg handle (ok event) w is =
      settled-Processed msg handle event (handler event w) w is refl

  handled_parts-Processed :
      (msg : Message) (b h : Option String) (w : W)
      → read_event decode msg ≡ read_parts decode b h
      → Ensures (λ u w'. Processed msg w w') (λ e w'. ⊥) (handled_parts q decode handler b h w)
  unfolding handled_parts
  handled_parts-Processed msg (some body) (some handle) w is =
      handled-Processed msg handle (decode body) w is
  handled_parts-Processed msg none h w is = returned (unread is)
  handled_parts-Processed msg (some body) none w is = returned (unread is)

  process_sqs_message-Processed :
      (msg : Message) (w : W)
      → Ensures
          (λ u w'. Processed msg w w')
          (λ e w'. ⊥)
          (process_sqs_message q decode handler msg w)
  unfolding process_sqs_message
  process_sqs_message-Processed msg w =
      handled_parts-Processed msg msg.body msg.receipt_handle w refl

  -- The messages of one delivery are all processed, in their order, and none of them stops the rest: a
  -- message that has no body or handle, that does not decode or whose handler fails is left in the
  -- queue, and a message is deleted only after its event was handled without an error.
  pub process_all-AllProcessed :
      (msgs : List Message) (w : W)
      → Ensures (λ u w'. AllProcessed msgs w w') (λ e w'. ⊥) (process_all q decode handler msgs w)
  unfolding process_all
  process_all-AllProcessed [] w = returned done
  process_all-AllProcessed (msg ∷ msgs) w =
      Ensures-bind (process_sqs_message q decode handler msg) _ w
        (process_sqs_message-Processed msg w)
        (λ u w1 p.
          Ensures-mono (process_all-AllProcessed msgs w1) (λ u2 w2 ps. next p ps)
            (λ e w2 never. never))
        (λ e w1 never. absurd never)
