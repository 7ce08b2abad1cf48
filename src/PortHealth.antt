-- ===== src/PortHealth.antt =====
-- crates/resin-core/src/port_health.rs: the health of the entry ports. A probe over the network is
-- the parameter `probe`, and the order in which the concurrent probes of a tick end is `collect`. An
-- `Instant` is a number of nanoseconds.
pub mod Results
pub mod Ticks
pub mod Watch
mod Tests
use egress_apikey.Prelude.{
  ℕ, suc, ◌+◌, ◌-◌, ◌*◌, ◌%◌, ◌^◌, Bool, true, false, String, Option, none, some, List, [], ◌∷◌,
  map, filter, find, length, ltb, leb, ◌==◌, if◌then◌else◌, sat_add_u32,
}
use egress_apikey.Throttle
use egress_apikey.Throttle.{Duration, ThrottleParams, bounded, backoff_interval}
use egress_apikey.Snapshot.{PortMapping}

abbrev pub fails_to_dead : ℕ
fails_to_dead = 5

abbrev pub poll_params : ThrottleParams
poll_params = bounded 5 300

abbrev pub backoff_exponent_cap : ℕ
backoff_exponent_cap = 5

pub data HealthState : Type 0 where
  alive degraded dead restarting : HealthState

unfoldable pub classify : Bool → ℕ → HealthState
classify true fails = if ltb 0 fails then degraded else alive
classify false fails = if leb fails_to_dead fails then dead else restarting

pub record PortHealthEntry : Type 0 where
  pub port : ℕ
  pub state : HealthState
  pub reachable : Bool
  pub fails : ℕ
  pub latency_ms : Option ℕ
  pub interval_secs : ℕ

pub record PortHealthSnapshot : Type 0 where
  pub revision : ℕ  -- u64
  pub entries : List PortHealthEntry

pub record PortHistory : Type 0 where
  pub last_probe : ℕ
  pub fails : ℕ  -- u32
  pub interval : Duration
  pub last_reachable : Bool

-- `PortHistory::new`, at the instant `created`.
abbrev pub new : ℕ → Duration → PortHistory
new created base_interval = record {
  last_probe = created;
  fails = 0;
  interval = base_interval;
  last_reachable = true;
}

-- `HashMap<u16, PortHistory>`
abbrev pub Histories : Type 0
Histories = ℕ → Option PortHistory

-- The result of one probe, with its port.
pub record ProbeResult : Type 0 where
  pub probed_port : ℕ
  pub answered : Bool
  pub latency : Option ℕ

-- `now.duration_since(last_probe) >= interval`
abbrev pub has_elapsed : ℕ → PortHistory → Bool
has_elapsed now h = leb (h.interval.secs * 10 ^ 9 + h.interval.nanos) (now - h.last_probe)

abbrev pub is_due : ℕ → Option PortHistory → Bool
is_due now none = true
is_due now (some h) = has_elapsed now h

abbrev pub history_or : PortHistory → Option PortHistory → PortHistory
history_or fresh none = fresh
history_or fresh (some h) = h

-- What a result of this tick makes of the history; without one it stays.
unfoldable pub record_result : ℕ → Duration → Option ProbeResult → PortHistory → PortHistory
unfolding backoff_interval
record_result now base_interval none h = h
record_result now base_interval (some r) h =
    let fails = sat_add_u32 h.fails 1 in
    if r.answered
    then record h { last_probe = now; last_reachable = true; fails = 0; interval = base_interval }
    else record h {
      last_probe = now;
      last_reachable = false;
      fails = fails;
      interval = backoff_interval poll_params base_interval fails backoff_exponent_cap;
    }

abbrev pub latency_of : Option ProbeResult → Option ℕ
latency_of none = none
latency_of (some r) = r.latency

abbrev pub entry : ℕ → Option ProbeResult → PortHistory → PortHealthEntry
entry port result h = record {
  port = port;
  state = classify h.last_reachable h.fails;
  reachable = h.last_reachable;
  fails = h.fails;
  latency_ms = latency_of result;
  interval_secs = h.interval.secs;
}

abbrev pub set_history : ℕ → PortHistory → Histories → Histories
set_history port h histories p = if p == port then some h else histories p

abbrev pub result_of : ℕ → List ProbeResult → Option ProbeResult
result_of port results = find (λ (r : ProbeResult). r.probed_port == port) results

-- The pass over the ports, in their order.
unfoldable pub report :
    ℕ
    → ℕ
    → Duration
    → List ProbeResult
    → List PortMapping
    → Histories
    → List PortHealthEntry × Histories
unfolding record_result classify
report now created base_interval results [] histories = ([], histories)
report now created base_interval results (p ∷ ports) histories =
    let result = result_of p.port results in
    let h =
      record_result now base_interval result
        (history_or (new created base_interval) (histories p.port)) in
    let (entries, after) =
      report now created base_interval results ports (set_history p.port h histories) in
    (entry p.port result h ∷ entries, after)

abbrev pub due : ℕ → Histories → List PortMapping → List PortMapping
due now histories ports = filter (λ (p : PortMapping). is_due now (histories p.port)) ports

module _ (probe : ℕ → String → Bool × Option ℕ)
    (collect : List ProbeResult → List ProbeResult) where
  abbrev pub probe_port : PortMapping → ProbeResult
  probe_port p =
      let (answered, latency) = probe p.port p.protocol in
      record { probed_port = p.port; answered = answered; latency = latency }

  unfoldable pub run_tick :
      ℕ → ℕ → List PortMapping → Histories → Duration → List PortHealthEntry × Histories
  unfolding report
  run_tick now created ports histories base_interval =
      report now created base_interval (collect (map probe_port (due now histories ports))) ports
        histories

-- `WatchCadence`
pub data WatchCadence : Type 0 where
  adaptive : WatchCadence
  fixed : Duration → WatchCadence

-- `scaled_log n` is `(2.0 * (1.0 + n).ln()).ceil() as u64`.
abbrev pub base_interval : (ℕ → ℕ) → WatchCadence → List PortMapping → Duration
base_interval scaled_log adaptive ports =
    Throttle.adaptive_interval scaled_log poll_params (length ports)
base_interval scaled_log (fixed d) ports = d

-- What the environment decides about one round of the watcher: the ports that are configured, the
-- clock, whether the window is hidden, and what the probes answer.
pub record Round : Type 0 where
  pub ports : List PortMapping
  pub now : ℕ
  pub created : ℕ
  pub paused : Bool
  pub probe : ℕ → String → Bool × Option ℕ
  pub collect : List ProbeResult → List ProbeResult

pub record Watcher : Type 0 where
  pub histories : Histories
  pub revision : ℕ

abbrev pub start : Watcher
start = record { histories = λ _. none; revision = 0 }

-- One round of the loop in `spawn_watcher_with`: the snapshot that it emits, if any.
unfoldable pub watch_round :
    (ℕ → ℕ) → WatchCadence → Round → Watcher → Option PortHealthSnapshot × Watcher
unfolding run_tick
watch_round scaled_log cadence round w =
    let revision = (w.revision + 1) % 2 ^ 64 in
    let (entries, histories) =
      run_tick round.probe round.collect round.now round.created round.ports w.histories
        (base_interval scaled_log cadence round.ports) in
    if round.paused then (none, w) else (
      some (record { revision = revision; entries = entries }),
      record { histories = histories; revision = revision },
    )

abbrev pub and_snapshot :
    Option PortHealthSnapshot → List PortHealthSnapshot → List PortHealthSnapshot
and_snapshot none rest = rest
and_snapshot (some s) rest = s ∷ rest

-- The loop, until the channel is closed: what it emits. `emit` tells whether the channel took it.
abbrev pub goes_on : (PortHealthSnapshot → Bool) → Option PortHealthSnapshot → Bool
goes_on emit none = true
goes_on emit (some s) = emit s

unfoldable pub watch :
    (ℕ → ℕ)
    → WatchCadence
    → (PortHealthSnapshot → Bool)
    → List Round
    → Watcher
    → List PortHealthSnapshot
unfolding watch_round
watch scaled_log cadence emit [] w = []
watch scaled_log cadence emit (round ∷ rounds) w =
    let (snapshot, w') = watch_round scaled_log cadence round w in
    let rest = watch scaled_log cadence emit rounds w' in
    and_snapshot snapshot (if goes_on emit snapshot then rest else [])
