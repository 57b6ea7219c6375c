-- ===== src/Matching/Bounds.antt =====
-- The settings of a queue that `NewSQSQueue` of backend/internal/matching/sqs_queue.go builds.
use mathlib.Core.Path.{subst}
use uitgo_monorepo.Base.{
  ℕ, String, ◌/◌, ◌≤◌, ◌*◌, ◌≡◌, Bool, true, false, ◌||◌, arith, if◌then◌else◌,
}
use uitgo_monorepo.Base.Int.{ℤ, pos, negsuc, ◌≤ℤ◌, ltb_ℤ, leb_ℤ}
use uitgo_monorepo.Base.Text.{is_empty}
use uitgo_monorepo.Errors.{Error}
use uitgo_monorepo.Base.Action.{Result, ok, err}
use uitgo_monorepo.Matching.{
  SqsApi, SqsConfig, SqsQueue, clamp_duration, seconds, client_of, queue_with, new_sqs_queue,
}

-- What SQS accepts: at most 20 seconds of waiting, 12 hours of invisibility and ten messages.
pub record IsAccepted {W : Type 0} (q : SqsQueue W) : Type 0 where
  pub wait : (pos 0 ≤ℤ q.wait_time_seconds) × (q.wait_time_seconds ≤ℤ pos 20)
  pub visibility : (pos 0 ≤ℤ q.visibility_seconds) × (q.visibility_seconds ≤ℤ pos 43200)
  pub messages : (pos 1 ≤ℤ q.max_messages) × (q.max_messages ≤ℤ pos 10)

clamped :
    (value : ℤ) (def max : ℕ)
    → def ≤ max
    → 1 ≤ max
    → 1 ≤ def
    → (pos 0 ≤ℤ clamp_duration value (pos def) (pos max))
      × (clamp_duration value (pos def) (pos max) ≤ℤ pos max)
unfolding clamp_duration
clamped value def max h one some_def = (ground arith, ground arith)

quotient_le : (n m : ℕ) → n ≤ m * 1000000000 → n / 1000000000 ≤ m
quotient_le n m h = omega arith

seconds-bounds :
    (d : ℤ) (m : ℕ)
    → (pos 0 ≤ℤ d) × (d ≤ℤ pos (m * 1000000000))
    → (pos 0 ≤ℤ seconds d) × (seconds d ≤ℤ pos m)
unfolding seconds
seconds-bounds (pos n) m (nonneg, h) = (omega arith, omega (arith, quotient_le n m (omega arith)))
seconds-bounds (negsuc n) m (nonneg, h) = absurd (omega arith)

result_inj : {A : Type 0} {x y : A} → ok x ≡ ok y → x ≡ y
result_inj e = cc

past_gate :
    {A : Type 0} {r : Result A} {y : A} (e : Error) (b : Bool)
    → (if b then err e else r) ≡ ok y
    → r ≡ ok y
past_gate e true h = cc
past_gate e false h = h

messages-bounds :
    (x : ℤ)
    → (pos 1 ≤ℤ (if leb_ℤ x (pos 0) || ltb_ℤ (pos 10) x then pos 1 else x))
      × ((if leb_ℤ x (pos 0) || ltb_ℤ (pos 10) x then pos 1 else x) ≤ℤ pos 10)
messages-bounds x = ground arith

queue_with-IsAccepted :
    {W : Type 0} (cfg : SqsConfig W) (r : Result (SqsApi W)) (q : SqsQueue W)
    → queue_with cfg r ≡ ok q
    → IsAccepted q
unfolding queue_with
queue_with-IsAccepted cfg (err e) q h = cc
queue_with-IsAccepted cfg (ok client) q h = subst IsAccepted (result_inj h) (record {
  wait =
      seconds-bounds (clamp_duration cfg.wait_time (pos 10000000000) (pos 20000000000)) 20
        (clamped cfg.wait_time 10000000000 20000000000 (omega arith) (omega arith) (omega arith));
  visibility =
      seconds-bounds (clamp_duration cfg.visibility_timeout (pos 30000000000) (pos 43200000000000))
        43200
        (clamped cfg.visibility_timeout 30000000000 43200000000000 (omega arith) (omega arith)
          (omega arith));
  messages = messages-bounds cfg.max_messages;
})

-- A queue that is built waits, hides and receives within what SQS accepts, whatever the
-- configuration and the client.
pub new_sqs_queue-IsAccepted :
    {W : Type 0} (load : String → Result (SqsApi W)) (cfg : SqsConfig W) (q : SqsQueue W)
    → new_sqs_queue load cfg ≡ ok q
    → IsAccepted q
unfolding new_sqs_queue
new_sqs_queue-IsAccepted load cfg q h =
    queue_with-IsAccepted cfg (client_of load cfg) q (past_gate _ (is_empty cfg.queue_url) h)
