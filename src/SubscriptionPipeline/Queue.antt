-- ===== src/SubscriptionPipeline/Queue.antt =====
-- The invariant of the queue of subscription_pipeline.rs under `enqueue`.
use egress_apikey.Prelude.{
  ℕ, suc, ◌≤◌, ◌<◌, ◌≡◌, refl, sym, ap, ◌∙◌, Bool, true, false, String, [], ◌∷◌, ◌++◌, length,
  count, All, All-append, length-append, count-append, leb, if◌then◌else◌, if_elim, arith,
  Bool-cases, inl, inr, eq_iff, leb→le, leb→lt,
}
use egress_apikey.SubscriptionPipeline.{
  QueueEntry, Queue, max_attempts, max_queue, EstablishEvent, enqueue, fresh, remove_first, named,
}

-- Parked exactly when the attempts are spent, and never beyond.
abbrev pub IsSane : QueueEntry → Type 0
IsSane e = (e.failed ≡ leb max_attempts e.attempts) × (e.attempts ≤ max_attempts)

abbrev pub IsQueue : Queue → Type 0
IsQueue q = ((name : String) → count (named name) q ≤ 1) × (length q ≤ max_queue) × All IsSane q

count-remove_first :
    (p : QueueEntry → Bool) (name : String) (q : Queue) → count p (remove_first name q) ≤ count p q
unfolding remove_first
count-remove_first p name [] = omega arith
count-remove_first p name (e ∷ q) = ground (arith, count-remove_first p name q)

length-remove_first : (name : String) (q : Queue) → length (remove_first name q) ≤ length q
unfolding remove_first
length-remove_first name [] = omega arith
length-remove_first name (e ∷ q) = ground (arith, length-remove_first name q)

count-remove_same :
    (name : String) (q : Queue)
    → count (named name) q ≤ 1
    → count (named name) (remove_first name q) ≡ 0
unfolding remove_first
count-remove_same name [] h = refl
count-remove_same name (e ∷ q) h = ground (arith, count-remove_same name q)

All-remove_first : (name : String) (q : Queue) → All IsSane q → All IsSane (remove_first name q)
unfolding remove_first
All-remove_first name [] h = tt
All-remove_first name (e ∷ q) h =
    if_elim (All IsSane) (named name e) (λ _. h.1) (λ _. (h.0, All-remove_first name q h.1))

count-push :
    (name : String) (q : Queue) (e : QueueEntry)
    → count (named name) q ≤ 1
    → count (named e.subscription) q ≡ 0
    → count (named name) (q ++ e ∷ []) ≤ 1
count-push name q e h k = elim (Bool-cases (named name e)) [
  | inl same ↦
      let none_left =
        ap {B = ℕ} (λ n. count (named n) q) (sym ((eq_iff e.subscription name).0 same)) ∙ k in
      let one = ap {B = ℕ} (λ b. if b then 1 else 0) same in
      omega (arith, count-append (named name) q (e ∷ []), none_left, one)
  | inr differ ↦
      let zero_more = ap {B = ℕ} (λ b. if b then 1 else 0) differ in
      omega (arith, count-append (named name) q (e ∷ []), zero_more)
]

-- A sane entry of a new name may be pushed on a queue that is not full.
pub push-IsQueue :
    (q : Queue) (e : QueueEntry)
    → IsQueue q
    → count (named e.subscription) q ≡ 0
    → length q < max_queue
    → IsSane e
    → IsQueue (q ++ e ∷ [])
push-IsQueue q e (unique, bound, sane) k free h = (
  λ name. count-push name q e (unique name) k,
  omega (arith, length-append q (e ∷ [])),
  All-append IsSane q (e ∷ []) sane (h, tt),
)

remove_first-IsQueue : (name : String) (q : Queue) → IsQueue q → IsQueue (remove_first name q)
remove_first-IsQueue name q (unique, bound, sane) = (
  λ n. omega (arith, count-remove_first (named n) name q, unique n),
  omega (arith, length-remove_first name q, bound),
  All-remove_first name q sane,
)

-- Enqueueing keeps the queue: at most one entry to a name, at most 64 entries, each parked exactly
-- when its five attempts are spent.
pub enqueue-IsQueue : (event : EstablishEvent) (q : Queue) → IsQueue q → IsQueue (enqueue event q).1
unfolding enqueue
enqueue-IsQueue event q h =
    let rest = remove_first-IsQueue event.subscription q h in
    if_elim (λ (r : Bool × Queue). IsQueue r.1)
      (leb max_queue (length (remove_first event.subscription q))) (λ _. rest)
      (λ free.
        push-IsQueue (remove_first event.subscription q) (fresh event) rest
          (count-remove_same event.subscription q (h.0 event.subscription))
          (leb→lt max_queue (length (remove_first event.subscription q)) free) (refl, omega arith))

pub remove_first-absent :
    (name : String) (q : Queue) → count (named name) q ≡ 0 → remove_first name q ≡ q
unfolding remove_first
remove_first-absent name [] h = refl
remove_first-absent name (e ∷ q) h = ground (arith, remove_first-absent name q)

length-remove_present :
    (name : String) (q : Queue)
    → 1 ≤ count (named name) q
    → suc (length (remove_first name q)) ≡ length q
unfolding remove_first
length-remove_present name [] h = absurd (omega arith)
length-remove_present name (e ∷ q) h = ground (arith, length-remove_present name q)

refused :
    (b : Bool) (q r : Queue)
    → (if◌then◌else◌ {A = Bool × Queue} b (false, q) (true, r)).0 ≡ false
    → b ≡ true
refused true q r h = refl
refused false q r h = cc

absent_count : (n a b l : ℕ) → (1 ≤ n → suc a ≡ l) → b ≤ a → l ≤ b → n ≡ 0
absent_count n a b l h k j = ground arith

-- A refused event leaves the queue as it was, and only a full queue with no entry of that name
-- refuses.
pub enqueue-refused :
    (event : EstablishEvent) (q : Queue)
    → IsQueue q
    → (enqueue event q).0 ≡ false
    → ((enqueue event q).1 ≡ q) × (length q ≡ max_queue) × (count (named event.subscription) q ≡ 0)
unfolding enqueue
enqueue-refused event q (unique, bound, sane) h =
    let name = event.subscription in
    let full = refused (leb max_queue (length (remove_first name q))) _ _ h in
    let enough = leb→le max_queue (length (remove_first name q)) full in
    let absent =
      absent_count (count (named name) q) (length (remove_first name q)) max_queue (length q)
        (length-remove_present name q) enough bound in
    let same = remove_first-absent name q absent in
    (rw full same, omega (arith, bound, enough, length-remove_first name q), absent)
