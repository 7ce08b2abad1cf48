-- ===== src/SubscriptionPipeline/Drains.antt =====
-- What a drain leaves of the queue, and what other tasks can do to it meanwhile.
use egress_apikey.Prelude.{
  ℕ, suc, ◌+◌, ◌≤◌, ◌<◌, ◌≡◌, refl, sym, ap, ◌∙◌, Bool, true, false, not, String, Option, none,
  some, List, [], ◌∷◌, length, count, All, All-append, length-append, count-append, leb, ◌==◌,
  if◌then◌else◌, if_elim, arith, Bool-cases, inl, inr, eq_iff, eq_refl,
}
use egress_apikey.SubscriptionPipeline.{
  PipelineReport, first_error, QueueEntry, Queue, max_attempts, max_queue, EstablishEvent, enqueue,
  remove_first, named, is_due, due_count,
}
use egress_apikey.SubscriptionPipeline.Drain.{
  kept, due, reschedule, requeue, enqueue_all, drain_events, drain, drive_due,
}
use egress_apikey.SubscriptionPipeline.Queue.{IsSane, IsQueue}

count-split :
    (p : QueueEntry → Bool) (now : ℕ) (q : Queue)
    → count p (due now q) + count p (kept now q) ≡ count p q
count-split p now [] = refl
count-split p now (e ∷ q) = ground (arith, count-split p now q)

length-split : (now : ℕ) (q : Queue) → length (due now q) + length (kept now q) ≡ length q
length-split now [] = refl
length-split now (e ∷ q) = ground (arith, length-split now q)

All-kept : (now : ℕ) (q : Queue) → All IsSane q → All IsSane (kept now q)
All-kept now [] h = tt
All-kept now (e ∷ q) h =
    if_elim (All IsSane) (not (is_due now e)) (λ _. (h.0, All-kept now q h.1))
      (λ _. All-kept now q h.1)

-- An event that is run has attempts left.
abbrev pub IsReady : QueueEntry → Type 0
IsReady e = (e.attempts < max_attempts) × (e.failed ≡ false)

ready : (e : QueueEntry) (now : ℕ) → IsSane e → is_due now e ≡ true → IsReady e
ready e now (parked, bound) h = ground arith

pub All-due : (now : ℕ) (q : Queue) → All IsSane q → All IsReady (due now q)
All-due now [] h = tt
All-due now (e ∷ q) h =
    if_elim (All IsReady) (is_due now e) (λ d. (ready e now h.0 d, All-due now q h.1))
      (λ _. All-due now q h.1)

reschedule-IsSane :
    (now : ℕ) (e : QueueEntry) (reason : String) → IsReady e → IsSane (reschedule now e reason)
unfolding reschedule
reschedule-IsSane now e reason (left, free) =
    if_elim IsSane (leb max_attempts (e.attempts + 1)) (λ p. (sym p, omega arith))
      (λ p. (free ∙ sym p, omega arith))

named-reschedule :
    (name : String) (now : ℕ) (e : QueueEntry) (reason : String)
    → named name (reschedule now e reason) ≡ named name e
unfolding reschedule
named-reschedule name now e reason =
    if_elim (λ (x : QueueEntry). named name x ≡ named name e) (leb max_attempts (e.attempts + 1))
      (λ _. refl) (λ _. refl)

count-requeue :
    (name : String) (now : ℕ) (e : QueueEntry) (o : Option String) (q : Queue)
    → count (named name) (requeue now e o q) ≤ count (named name) (e ∷ []) + count (named name) q
unfolding requeue
count-requeue name now e none q = omega arith
count-requeue name now e (some reason) q =
    let pushed = count-append (named name) q (reschedule now e reason ∷ []) in
    let same = ap {B = ℕ} (λ b. if b then 1 else 0) (named-reschedule name now e reason) in
    omega (arith, pushed, same)

length-requeue :
    (now : ℕ) (e : QueueEntry) (o : Option String) (q : Queue)
    → length (requeue now e o q) ≤ suc (length q)
unfolding requeue
length-requeue now e none q = omega arith
length-requeue now e (some reason) q = omega (arith, length-append q (reschedule now e reason ∷ []))

requeue-All :
    (now : ℕ) (e : QueueEntry) (o : Option String) (q : Queue)
    → IsReady e
    → All IsSane q
    → All IsSane (requeue now e o q)
unfolding requeue
requeue-All now e none q h k = k
requeue-All now e (some reason) q h k =
    All-append IsSane q (reschedule now e reason ∷ []) k (reschedule-IsSane now e reason h, tt)

module _ {World : Type 0} (run : QueueEntry → World → PipelineReport × World)
    (others : World → List EstablishEvent) where
  drain_events-IsQueue :
      (now : ℕ) (events : List QueueEntry) (q : Queue) (w : World)
      → ((v : World) → others v ≡ [])
      → All IsReady events
      → ((name : String) → count (named name) events + count (named name) q ≤ 1)
      → length events + length q ≤ max_queue
      → All IsSane q
      → IsQueue (drain_events run others now events q w).0.1
  unfolding drain_events enqueue_all
  drain_events-IsQueue now [] q w quiet h unique bound sane =
      (λ name. omega (arith, unique name), omega (arith, bound), sane)
  drain_events-IsQueue now (e ∷ events) q w quiet h unique bound sane =
      let o = first_error (run e w).0 in
      rw (quiet (run e w).1) (
        drain_events-IsQueue now events (requeue now e o q) (run e w).1 quiet h.1
          (λ name. omega (arith, count-requeue name now e o q, unique name))
          (omega (arith, length-requeue now e o q, bound)) (requeue-All now e o q h.0 sane))

  -- A drain during which no other task enqueues keeps the queue: at most one entry to a name, at
  -- most 64 entries, each parked exactly when its five attempts are spent.
  pub drain-IsQueue :
      (now : ℕ) (q : Queue) (w : World)
      → ((v : World) → others v ≡ [])
      → IsQueue q
      → IsQueue (drain run others now q w).0.1
  unfolding drain
  drain-IsQueue now q w quiet (unique, bound, sane) =
      drain_events-IsQueue now (due now q) (kept now q) w quiet (All-due now q sane)
        (λ name. omega (arith, count-split (named name) now q, unique name))
        (omega (arith, length-split now q, bound)) (All-kept now q sane)

  due-none : (now : ℕ) (q : Queue) → count (is_due now) q ≡ 0 → (due now q ≡ []) × (kept now q ≡ q)
  due-none now [] h = (refl, refl)
  due-none now (e ∷ q) h = elim (Bool-cases (is_due now e)) [
    | inl d ↦ absurd (omega (arith, h, ap {B = ℕ} (λ b. if b then 1 else 0) d))
    | inr d ↦
        let one = ap {B = ℕ} (λ b. if b then 1 else 0) d in
        let (a, b) = due-none now q (omega (arith, h, one)) in (rw d a, rw d (ap (λ r. e ∷ r) b))
  ]

  -- The driver's gate changes nothing: with or without it, reports, queue and world are the same.
  pub drive_due-drain :
      (now : ℕ) (q : Queue) (w : World) → drive_due run others now q w ≡ drain run others now q w
  unfolding drive_due due_count drain drain_events
  drive_due-drain now q w = elim (Bool-cases (count (is_due now) q == 0)) [
    | inl e ↦ let (a, b) = due-none now q (ground arith) in rw e (rw a (rw b refl))
    | inr e ↦ rw e
  ]

  -- Where the one due event of a queue that holds nothing else fails, and another task enqueues its
  -- name once while it runs, the drain leaves that name in the queue twice.
  pub drain-duplicates :
      (now : ℕ) (e : QueueEntry) (again : EstablishEvent) (w : World) {reason : String}
      → is_due now e ≡ true
      → again.subscription ≡ e.subscription
      → first_error (run e w).0 ≡ some reason
      → others (run e w).1 ≡ again ∷ []
      → count (named e.subscription) (drain run others now (e ∷ []) w).0.1 ≡ 2
  unfolding drain drain_events enqueue_all enqueue remove_first requeue
  drain-duplicates now e again w {reason} d same failed_run meanwhile = rw d (
      rw meanwhile (
        rw failed_run (
          omega (
            arith,
            ap {B = ℕ} (λ b. if b then 1 else 0)
                (named-reschedule e.subscription now e reason ∙ eq_refl e.subscription),
            ap {B = ℕ} (λ b. if b then 1 else 0)
                ((eq_iff again.subscription e.subscription).1 same),
          ))))
