-- ===== src/Matching.antt =====
-- The matching queue on SQS, backend/internal/matching/queue.go and sqs_queue.go. A duration is its
-- count of nanoseconds. The AWS client and the JSON form of an event are parameters.
pub mod Bounds
pub mod Handling
mod Tests
use uitgo_monorepo.Base.{
  ℕ, zero, suc, String, ◌/◌, Bool, true, false, ◌||◌, ◌&&◌, Option, none, some, List, [], ◌∷◌,
  if◌then◌else◌,
}
use uitgo_monorepo.Base.Int.{ℤ, pos, negsuc, ltb_ℤ, leb_ℤ}
use uitgo_monorepo.Base.Text.{is_empty}
use uitgo_monorepo.Errors.{message}
use uitgo_monorepo.Base.Action.{
  checked, Result, ok, err, Action, pure, raise, attempt, raise_if, ◌>>=◌, ◌>>◌,
}

pub record TripEvent : Type 0 where
  pub trip_id : String
  pub rider_id : String
  pub service_id : String
  pub origin_text : String
  pub dest_text : String
  pub requested : ℕ

-- A message of SQS, as the code reads it.
pub record Message : Type 0 where
  pub body : Option String
  pub receipt_handle : Option String

-- `SQSAPI`, with the arguments that the code fills in.
pub record SqsApi (W : Type 0) : Type 0 where
  pub send_message : String → String → Action W (Unit {0})
  pub receive_message : String → ℤ → ℤ → ℤ → Action W (List Message)
  pub delete_message : String → String → Action W (Unit {0})

pub record SqsConfig (W : Type 0) : Type 0 where
  pub queue_url : String
  pub region : String
  pub client : Option (SqsApi W)
  pub visibility_timeout : ℤ
  pub wait_time : ℤ
  pub max_messages : ℤ

pub record SqsQueue (W : Type 0) : Type 0 where
  pub client : SqsApi W
  pub queue_url : String
  pub wait_time_seconds : ℤ
  pub visibility_seconds : ℤ
  pub max_messages : ℤ

unfoldable pub clamp_duration : ℤ → ℤ → ℤ → ℤ
clamp_duration value def max =
    if leb_ℤ value (pos 0) then def else if ltb_ℤ (pos 0) max && ltb_ℤ max value then max else value

-- `-n`
unfoldable pub negated : ℕ → ℤ
negated zero = pos 0
negated (suc n) = negsuc n

-- `d / time.Second`, which rounds towards zero.
unfoldable pub seconds : ℤ → ℤ
unfolding negated
seconds (pos n) = pos (n / 1000000000)
seconds (negsuc n) = negated (suc n / 1000000000)

-- The client that is given, or one that `load` makes for the region.
unfoldable pub client_of :
    {W : Type 0} → (String → Result (SqsApi W)) → SqsConfig W → Result (SqsApi W)
client_of load cfg = elim cfg.client [
  | some client ↦ ok client
  | none ↦
      if is_empty cfg.region
      then err (message "aws region required for sqs backend")
      else load cfg.region
]

unfoldable pub queue_with : {W : Type 0} → SqsConfig W → Result (SqsApi W) → Result (SqsQueue W)
queue_with cfg (err e) = err e
queue_with cfg (ok client) = ok (record {
  client = client;
  queue_url = cfg.queue_url;
  wait_time_seconds = seconds (clamp_duration cfg.wait_time (pos 10000000000) (pos 20000000000));
  visibility_seconds =
      seconds (clamp_duration cfg.visibility_timeout (pos 30000000000) (pos 43200000000000));
  max_messages =
      if leb_ℤ cfg.max_messages (pos 0) || ltb_ℤ (pos 10) cfg.max_messages
      then pos 1
      else cfg.max_messages;
})

unfoldable pub new_sqs_queue :
    {W : Type 0} → (String → Result (SqsApi W)) → SqsConfig W → Result (SqsQueue W)
new_sqs_queue load cfg =
    if is_empty cfg.queue_url
    then err (message "sqs queue url required")
    else queue_with cfg (client_of load cfg)

module _ {W : Type 0} (q : SqsQueue W) where
  unfoldable pub publish : (TripEvent → Result String) → Option TripEvent → Action W (Unit {0})
  publish encode none = raise (message "trip event required")
  publish encode (some event) = do
    raise_if (is_empty event.trip_id) (message "trip event required")
    body ← checked (encode event)
    q.client.send_message q.queue_url body

  -- The message is deleted once its event was handled; errors are logged.
  unfoldable pub settled : String → Result (Unit {0}) → Action W (Unit {0})
  settled handle (err e) = pure tt
  settled handle (ok done) = do
    deleted ← attempt (q.client.delete_message q.queue_url handle)
    pure tt

  unfoldable pub handled :
      String → (TripEvent → Action W (Unit {0})) → Result TripEvent → Action W (Unit {0})
  handled handle handler (err e) = pure tt
  handled handle handler (ok event) = do outcome ← attempt (handler event); settled handle outcome

  -- A message without a body or a handle is left alone.
  unfoldable pub handled_parts :
      (String → Result TripEvent)
      → (TripEvent → Action W (Unit {0}))
      → Option String
      → Option String
      → Action W (Unit {0})
  handled_parts decode handler (some body) (some handle) = handled handle handler (decode body)
  handled_parts decode handler _ _ = pure tt

  unfoldable pub process_sqs_message :
      (String → Result TripEvent)
      → (TripEvent → Action W (Unit {0}))
      → Message
      → Action W (Unit {0})
  process_sqs_message decode handler msg = handled_parts decode handler msg.body msg.receipt_handle

  -- The messages of one `ReceiveMessage`, in turn.
  unfoldable pub process_all :
      (String → Result TripEvent)
      → (TripEvent → Action W (Unit {0}))
      → List Message
      → Action W (Unit {0})
  process_all decode handler [] = pure tt
  process_all decode handler (msg ∷ msgs) = do
    process_sqs_message decode handler msg
    process_all decode handler msgs
