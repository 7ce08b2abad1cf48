-- ===== src/SubscriptionPipeline/Budget.antt =====
-- How often an event is run, and when.
use egress_apikey.Prelude.{
  ℕ, zero, suc, ◌+◌, ◌-◌, ◌*◌, ◌^◌, ◌≤◌, ◌<◌, ◌≡◌, refl, String, Option, none, some, List, [], ◌∷◌,
  ◌++◌, length, All, leb, if◌then◌else◌, if_elim, leb→le, arith,
}
use egress_apikey.SubscriptionPipeline.{
  PipelineReport, first_error, QueueEntry, Queue, max_attempts, EstablishEvent, retry_delay,
  retry_jitter,
}
use egress_apikey.SubscriptionPipeline.Drain.{
  kept, due, reschedule, requeue, enqueue_all, drain_events, drain, drive_due,
}
use egress_apikey.SubscriptionPipeline.Queue.{IsQueue}
use egress_apikey.SubscriptionPipeline.Drains.{IsReady, All-due, drain-IsQueue, drive_due-drain}

-- The runs that an entry has left.
abbrev pub runs_left : QueueEntry → ℕ
runs_left e = if e.failed then 0 else max_attempts - e.attempts

abbrev pub budget : Queue → ℕ
budget [] = 0
budget (e ∷ q) = runs_left e + budget q

budget-append : (p q : Queue) → budget (p ++ q) ≡ budget p + budget q
budget-append [] q = omega arith
budget-append (e ∷ p) q = omega (arith, budget-append p q)

budget-split : (now : ℕ) (q : Queue) → budget (due now q) + budget (kept now q) ≡ budget q
budget-split now [] = refl
budget-split now (e ∷ q) = ground (arith, budget-split now q)

runs_left-reschedule :
    (now : ℕ) (e : QueueEntry) (reason : String)
    → IsReady e
    → suc (runs_left (reschedule now e reason)) ≤ runs_left e
unfolding reschedule
runs_left-reschedule now e reason (left, free) =
    if_elim (λ (x : QueueEntry). suc (runs_left x) ≤ runs_left e)
      (leb max_attempts (e.attempts + 1)) (λ _. rw free (omega arith)) (λ _. rw free (omega arith))

budget-requeue :
    (now : ℕ) (e : QueueEntry) (o : Option String) (q : Queue)
    → IsReady e
    → suc (budget (requeue now e o q)) ≤ runs_left e + budget q
unfolding requeue
budget-requeue now e none q (left, free) = rw free (omega arith)
budget-requeue now e (some reason) q h =
    omega
      (arith, budget-append q (reschedule now e reason ∷ []), runs_left-reschedule now e reason h)

retry_jitter-bound : (subscription : String) (now : ℕ) → retry_jitter subscription now < 30
unfolding retry_jitter
retry_jitter-bound subscription now = omega arith

retry_delay-exact :
    (a : ℕ) → suc a < max_attempts → (retry_delay (a + 1 - 1) ≡ 2 * 2 ^ a) × (2 * 2 ^ a ≤ 16)
unfolding retry_delay
retry_delay-exact zero h = (refl, omega arith)
retry_delay-exact (suc zero) h = (refl, omega arith)
retry_delay-exact (suc (suc zero)) h = (refl, omega arith)
retry_delay-exact (suc (suc (suc zero))) h = (refl, omega arith)
retry_delay-exact (suc (suc (suc (suc a)))) h = absurd (omega arith)

-- A failed event with attempts left is tried again 2 * 2^a to 2 * 2^a + 29 seconds later, where `a`
-- is the attempts it had made before this one, as long as the clock is below 2^64 - 100.
pub reschedule-window :
    (now : ℕ) (e : QueueEntry) (reason : String)
    → suc e.attempts < max_attempts
    → now < 2 ^ 64 - 100
    → (now + 2 * 2 ^ e.attempts ≤ (reschedule now e reason).next_retry_at)
      × ((reschedule now e reason).next_retry_at ≤ now + 2 * 2 ^ e.attempts + 29)
      × ((reschedule now e reason).failed ≡ e.failed)
unfolding reschedule
reschedule-window now e reason h clock =
    let (d, b) = retry_delay-exact e.attempts h in
    let j = retry_jitter-bound e.subscription now in
    if_elim
      (λ (x : QueueEntry).
        (now + 2 * 2 ^ e.attempts ≤ x.next_retry_at)
        × (x.next_retry_at ≤ now + 2 * 2 ^ e.attempts + 29)
        × (x.failed ≡ e.failed))
      (leb max_attempts (e.attempts + 1))
      (λ spent. absurd (omega (arith, leb→le max_attempts (e.attempts + 1) spent)))
      (λ _. (omega arith, omega arith, refl))

module _ {World : Type 0} (run : QueueEntry → World → PipelineReport × World)
    (others : World → List EstablishEvent) where
  drain_events-budget :
      (now : ℕ) (events : List QueueEntry) (q : Queue) (w : World)
      → ((v : World) → others v ≡ [])
      → All IsReady events
      → length (drain_events run others now events q w).0.0
          + budget (drain_events run others now events q w).0.1
        ≤ budget events + budget q
  unfolding drain_events enqueue_all
  drain_events-budget now [] q w quiet h = omega arith
  drain_events-budget now (e ∷ events) q w quiet h =
      let o = first_error (run e w).0 in
      rw (quiet (run e w).1) (
        omega (
          arith,
          budget-requeue now e o q h.0,
          drain_events-budget now events (requeue now e o q) (run e w).1 quiet h.1,
        ))

  drain-budget :
      (now : ℕ) (q : Queue) (w : World)
      → ((v : World) → others v ≡ [])
      → IsQueue q
      → length (drain run others now q w).0.0 + budget (drain run others now q w).0.1 ≤ budget q
  unfolding drain
  drain-budget now q w quiet (unique, bound, sane) = omega (
    arith,
    budget-split now q,
    drain_events-budget now (due now q) (kept now q) w quiet (All-due now q sane),
  )

  -- The driver ticking at the given instants: the runs in all, and what is left.
  unfoldable pub drive_all : List ℕ → Queue → World → (ℕ × Queue) × World
  unfolding drive_due
  drive_all [] q w = ((0, q), w)
  drive_all (now ∷ ticks) q w =
      let ((reports, q1), w1) = drive_due run others now q w in
      let ((n, q2), w2) = drive_all ticks q1 w1 in ((length reports + n, q2), w2)

  drive_all-budget :
      (ticks : List ℕ) (q : Queue) (w : World)
      → ((v : World) → others v ≡ [])
      → IsQueue q
      → (drive_all ticks q w).0.0 + budget (drive_all ticks q w).0.1 ≤ budget q
  unfolding drive_all
  drive_all-budget [] q w quiet h = omega arith
  drive_all-budget (now ∷ ticks) q w quiet h = rw (drive_due-drain run others now q w) (
      omega (
        arith,
        drain-budget now q w quiet h,
        drive_all-budget ticks (drain run others now q w).0.1 (drain run others now q w).1 quiet
            (drain-IsQueue run others now q w quiet h),
      ))

  budget-length : (q : Queue) → budget q ≤ 5 * length q
  budget-length [] = omega arith
  budget-length (e ∷ q) = ground (arith, budget-length q)

  -- However often the driver ticks, and whatever the passes do, it runs at most five passes for
  -- each entry of the queue, as long as no other task enqueues.
  pub drive_all-runs :
      (ticks : List ℕ) (q : Queue) (w : World)
      → ((v : World) → others v ≡ [])
      → IsQueue q
      → (drive_all ticks q w).0.0 ≤ 5 * length q
  drive_all-runs ticks q w quiet h =
      omega (arith, drive_all-budget ticks q w quiet h, budget-length q)
