-- ===== src/Matching/Tests.antt =====
-- The theorems on the matching queue at a client that meets their hypotheses.
use uitgo_monorepo.Base.{String, refl, none, some, List, [], ◌∷◌}
use uitgo_monorepo.Base.Int.{pos}
use uitgo_monorepo.Errors.{message}
use uitgo_monorepo.Base.Action.{Result, ok, err, Action, pure}
use uitgo_monorepo.Base.Action.Ensures.{Ensures}
use uitgo_monorepo.Matching.{
  TripEvent, Message, SqsApi, SqsConfig, SqsQueue, clamp_duration, seconds, client_of, queue_with,
  new_sqs_queue, process_all,
}
use uitgo_monorepo.Matching.Bounds.{IsAccepted, new_sqs_queue-IsAccepted}
use uitgo_monorepo.Matching.Handling.{AllProcessed, process_all-AllProcessed}

-- The handles that were deleted, the last one first.
abbrev Deleted : Type 0
Deleted = List String

abbrev client : SqsApi Deleted
client = record {
  send_message = λ url body. pure tt;
  receive_message = λ url n wait visibility. pure [];
  delete_message = λ url handle w. (ok tt, handle ∷ w);
}

abbrev config : SqsConfig Deleted
config = record {
  queue_url = "https://sqs/trips";
  region = "";
  client = some client;
  visibility_timeout = pos 0;
  wait_time = pos 90000000000;
  max_messages = pos 50;
}

abbrev queue : SqsQueue Deleted
queue = record {
  client = client;
  queue_url = "https://sqs/trips";
  wait_time_seconds = pos 20;
  visibility_seconds = pos 30;
  max_messages = pos 1;
}

new_sqs_queue-IsAccepted_example : IsAccepted queue
unfolding new_sqs_queue queue_with client_of clamp_duration seconds
new_sqs_queue-IsAccepted_example =
    new_sqs_queue-IsAccepted (λ region. err (message "no client")) config queue refl

abbrev event : TripEvent
event = record {
  trip_id = "t";
  rider_id = "u";
  service_id = "uit-go";
  origin_text = "A";
  dest_text = "B";
  requested = 1;
}

abbrev decode : String → Result TripEvent
decode body = ok event

abbrev handler : TripEvent → Action Deleted (Unit {0})
handler e = pure tt

abbrev delivery : List Message
delivery =
    record { body = some "{}"; receipt_handle = some "h1" }
    ∷ record { body = none; receipt_handle = some "h2" }
    ∷ []

process_all-AllProcessed_example :
    Ensures
      (λ u w'. AllProcessed queue decode handler delivery [] w')
      (λ e w'. ⊥)
      (process_all queue decode handler delivery [])
process_all-AllProcessed_example = process_all-AllProcessed queue decode handler delivery []
