-- ===== src/SubscriptionPipeline/Drain.antt =====
-- crates/resin-core/src/subscription_pipeline.rs: the drain loop, its driver, and the lock that it
-- takes once to collect the due events and once more for each event that failed.
use egress_apikey.Prelude.{
  ℕ, ◌+◌, ◌-◌, ◌%◌, ◌^◌, ◌==◌, true, not, String, Option, none, some, List, [], ◌∷◌, ◌++◌, leb,
  filter, if◌then◌else◌,
}
use egress_apikey.SubscriptionPipeline.{
  PipelineReport, first_error, QueueEntry, Queue, max_attempts, retry_delay, retry_jitter, is_due,
  due_count, EstablishEvent, enqueue,
}

-- `retain`: what stays, and what was due.
abbrev pub kept : ℕ → Queue → Queue
kept now q = filter (λ e. not (is_due now e)) q

abbrev pub due : ℕ → Queue → Queue
due now q = filter (is_due now) q

-- A failed event: parked at the last attempt, or scheduled. The instant is a `u64` sum.
unfoldable pub reschedule : ℕ → QueueEntry → String → QueueEntry
unfolding retry_delay retry_jitter
reschedule now event reason =
    let attempts = event.attempts + 1 in
    if leb max_attempts attempts
    then record event { attempts = attempts; last_error = some reason; failed = true }
    else record event {
      attempts = attempts;
      last_error = some reason;
      next_retry_at =
          (now + retry_delay (attempts - 1) + retry_jitter event.subscription now) % 2 ^ 64;
    }

unfoldable pub requeue : ℕ → QueueEntry → Option String → Queue → Queue
unfolding reschedule
requeue now event none q = q
requeue now event (some reason) q = q ++ reschedule now event reason ∷ []

-- Events that other tasks enqueue, in order.
unfoldable pub enqueue_all : List EstablishEvent → Queue → Queue
unfolding enqueue
enqueue_all [] q = q
enqueue_all (event ∷ events) q = enqueue_all events (enqueue event q).1

-- `World` is what a pass of the cascade changes outside the queue, and `others` the events that
-- other tasks enqueue while the pass that left such a world was running: the lock is free then.
module _ {World : Type 0} (run : QueueEntry → World → PipelineReport × World)
    (others : World → List EstablishEvent) where
  unfoldable pub drain_events :
      ℕ → List QueueEntry → Queue → World → (List PipelineReport × Queue) × World
  unfolding requeue first_error enqueue_all
  drain_events now [] q w = (([], q), w)
  drain_events now (event ∷ events) q w =
      let (report, w1) = run event w in
      let q1 = requeue now event (first_error report) (enqueue_all (others w1) q) in
      let ((reports, q2), w2) = drain_events now events q1 w1 in ((report ∷ reports, q2), w2)

  unfoldable pub drain : ℕ → Queue → World → (List PipelineReport × Queue) × World
  unfolding drain_events
  drain now q w = drain_events now (due now q) (kept now q) w

  unfoldable pub drive_due : ℕ → Queue → World → (List PipelineReport × Queue) × World
  unfolding drain due_count
  drive_due now q w =
      let rest = drain now q w in if due_count now q == 0 then (([], q), w) else rest
