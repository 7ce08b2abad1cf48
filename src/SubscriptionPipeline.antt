-- ===== src/SubscriptionPipeline.antt =====
-- crates/resin-core/src/subscription_pipeline.rs: the queue of establish events and its schedule.
-- The cascade that one event runs and the drain loop are in the children.
pub mod Calls
pub mod Steps
pub mod Compensation
pub mod Cascade
pub mod Drain
pub mod Queue
pub mod Drains
pub mod Budget
pub mod Records
pub mod Listed
pub mod Quiet
pub mod Deletions
pub mod Rerun
mod Tests
use Prim.Native.Nat.{bit_xor}
use egress_apikey.Prelude.{
  ℕ, zero, suc, ◌+◌, ◌*◌, ◌/◌, ◌%◌, ◌^◌, min, Bool, true, false, not, ◌&&◌, ◌||◌, String, Option,
  none, some, is_some, List, [], ◌∷◌, ◌++◌, map, length, any, all, count, filter, str_eq, ltb, leb,
  if◌then◌else◌,
}
use egress_apikey.Prelude.Texts.{Bytes, bytes}

abbrev pub max_attempts : ℕ
max_attempts = 5

abbrev pub max_queue : ℕ
max_queue = 64

pub record EstablishEvent : Type 0 where
  pub subscription : String
  pub url : String

pub data StepStatus : Type 0 where
  written already_present : StepStatus
  failed : String → StepStatus

abbrev pub is_failed : StepStatus → Bool
is_failed (failed reason) = true
is_failed _ = false

-- The five steps, in order.
pub record PipelineReport : Type 0 where
  pub subscription : String
  pub steps : List StepStatus

unfoldable pub all_ok : PipelineReport → Bool
all_ok report = all (λ s. not (is_failed s)) report.steps

unfoldable pub first_failure : List StepStatus → Option String
first_failure [] = none
first_failure (failed reason ∷ steps) = some reason
first_failure (written ∷ steps) = first_failure steps
first_failure (already_present ∷ steps) = first_failure steps

unfoldable pub first_error : PipelineReport → Option String
unfolding first_failure
first_error report = first_failure report.steps

pub record QueueEntry : Type 0 where
  pub subscription : String
  pub url : String
  pub attempts : ℕ  -- u32
  pub last_error : Option String
  pub next_retry_at : ℕ  -- u64
  pub failed : Bool

-- `VecDeque<QueueEntry>`, front first, behind its lock.
abbrev pub Queue : Type 0
Queue = List QueueEntry

abbrev pub named : String → QueueEntry → Bool
named name e = str_eq e.subscription name

-- `q.remove(pos)` at the first entry of that name, if there is one.
unfoldable pub remove_first : String → Queue → Queue
remove_first name [] = []
remove_first name (e ∷ q) = let rest = remove_first name q in if named name e then q else e ∷ rest

abbrev pub fresh : EstablishEvent → QueueEntry
fresh event = record {
  subscription = event.subscription;
  url = event.url;
  attempts = 0;
  last_error = none;
  next_retry_at = 0;
  failed = false;
}

unfoldable pub enqueue : EstablishEvent → Queue → Bool × Queue
unfolding remove_first
enqueue event q =
    let rest = remove_first event.subscription q in
    if leb max_queue (length rest) then (false, rest) else (true, rest ++ fresh event ∷ [])

unfoldable pub pending : Queue → List String
pending q = map (λ (e : QueueEntry). e.subscription) q

unfoldable pub failed_count : Queue → ℕ
failed_count q = count (λ (e : QueueEntry). e.failed) q

-- `(2u64 << attempts_so_far.min(5)).min(60)`
unfoldable pub retry_delay : ℕ → ℕ
retry_delay attempts_so_far = min (2 * 2 ^ min attempts_so_far 5) 60

abbrev pub fnv_offset : ℕ
fnv_offset = 0xcbf29ce484222325

abbrev pub fnv_prime : ℕ
fnv_prime = 0x00000100000001b3

-- One round of FNV-1a: `h ^= b; h = h.wrapping_mul(FNV_PRIME)`.
unfoldable pub fnv_round : ℕ → ℕ → ℕ
fnv_round h b = bit_xor h b * fnv_prime % 2 ^ 64

unfoldable pub fnv_hash : ℕ → Bytes → ℕ
unfolding fnv_round
fnv_hash h [] = h
fnv_hash h (b ∷ bs) = fnv_hash (fnv_round h b) bs

unfoldable pub retry_jitter : String → ℕ → ℕ
unfolding fnv_hash bytes
retry_jitter subscription now =
    fnv_round (fnv_hash fnv_offset (bytes subscription)) now / 2 ^ 33 % 30

-- Queued, not parked, and past its backoff instant.
abbrev pub is_due : ℕ → QueueEntry → Bool
is_due now e = not e.failed && leb e.next_retry_at now

unfoldable pub due_count : ℕ → Queue → ℕ
due_count now q = count (is_due now) q
