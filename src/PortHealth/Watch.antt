-- ===== src/PortHealth/Watch.antt =====
-- What the watcher of port_health.rs emits.
use egress_apikey.Prelude.{
  ℕ, ◌+◌, ◌%◌, ◌^◌, ◌≤◌, ◌≡◌, refl, ap, Bool, true, false, Option, none, some, List, [], ◌∷◌, map,
  length, All, leb, ◌==◌, if◌then◌else◌, arith, sat_add_u32, if_elim, Bool-cases, inl, inr,
}
use egress_apikey.Throttle.{Duration}
use egress_apikey.Throttle.Bounds.{delays_in_band}
use egress_apikey.Snapshot.{PortMapping}
use egress_apikey.PortHealth.{
  HealthState, alive, dead, restarting, classify, PortHealthEntry, PortHealthSnapshot, PortHistory,
  new, Histories, ProbeResult, history_or, record_result, entry, set_history, result_of, report,
  run_tick, adaptive, base_interval, Round, Watcher, watch,
}
use egress_apikey.PortHealth.Results.{Reorders, AreDistinct}
use egress_apikey.PortHealth.Ticks.{TickShows, run_tick-shows}

abbrev pub InBand : ℕ → Type 0
InBand secs = (5 ≤ secs) × (secs ≤ 300)

-- The failures count since the last success, and the interval stays in the band of the poll.
pub record HistoryIsSound (h : PortHistory) : Type 0 where
  pub success : h.last_reachable ≡ true → h.fails ≡ 0
  pub failure : h.last_reachable ≡ false → 1 ≤ h.fails
  pub band : InBand h.interval.secs

abbrev OptionIsSound : Option PortHistory → Type 0
OptionIsSound none = Unit
OptionIsSound (some h) = HistoryIsSound h

abbrev pub AreSound : Histories → Type 0
AreSound histories = (port : ℕ) → OptionIsSound (histories port)

-- Alive after a success; dead after five failures in a row, and restarting before.
abbrev pub expected_state : Bool → ℕ → HealthState
expected_state true fails = alive
expected_state false fails = if leb 5 fails then dead else restarting

pub record EntryIsSound (e : PortHealthEntry) : Type 0 where
  pub state : e.state ≡ expected_state e.reachable e.fails
  pub success : e.reachable ≡ true → e.fails ≡ 0
  pub failure : e.reachable ≡ false → 1 ≤ e.fails
  pub band : InBand e.interval_secs

record_result-IsSound :
    (now : ℕ) (base : Duration) (r : Option ProbeResult) (h : PortHistory)
    → InBand base.secs
    → HistoryIsSound h
    → HistoryIsSound (record_result now base r h)
unfolding record_result
record_result-IsSound now base none h b s = s
record_result-IsSound now base (some r) h b s =
    let bands = delays_in_band 5 300 base (sat_add_u32 h.fails 1) 5 0 0 (λ n. n) (omega arith) in
    if_elim HistoryIsSound r.answered
      (λ _. record { success = λ _. refl; failure = λ e. cc; band = b })
      (λ _. record { success = λ e. cc; failure = λ _. omega arith; band = (bands.0, bands.1) })

classified :
    (reachable : Bool) (fails : ℕ)
    → (reachable ≡ true → fails ≡ 0)
    → classify reachable fails ≡ expected_state reachable fails
unfolding classify
classified true fails h = ground (arith, h refl)
classified false fails h = refl

entry-IsSound :
    (port : ℕ) (r : Option ProbeResult) (h : PortHistory)
    → HistoryIsSound h
    → EntryIsSound (entry port r h)
entry-IsSound port r h s = record {
  state = classified h.last_reachable h.fails s.success;
  success = s.success;
  failure = s.failure;
  band = s.band;
}

-- What one tick reports and remembers.
abbrev Reports : List PortMapping → List PortHealthEntry × Histories → Type 0
Reports ports (entries, after) =
    (map (λ (e : PortHealthEntry). e.port) entries ≡ map (λ (p : PortMapping). p.port) ports)
    × All EntryIsSound entries
    × AreSound after

known :
    (o : Option PortHistory) (created : ℕ) (base : Duration)
    → InBand base.secs
    → OptionIsSound o
    → HistoryIsSound (history_or (new created base) o)
known none created base b s = record { success = λ _. refl; failure = λ e. cc; band = b }
known (some h) created base b s = s

report-Reports :
    (now created : ℕ) (base : Duration) (results : List ProbeResult) (ports : List PortMapping)
    (histories : Histories)
    → InBand base.secs
    → AreSound histories
    → Reports ports (report now created base results ports histories)
unfolding report
report-Reports now created base results [] histories b s = (refl, tt, s)
report-Reports now created base results (p ∷ ports) histories b s =
    let h = history_or (new created base) (histories p.port) in
    let result = result_of p.port results in
    let kept = record_result now base result h in
    let sound =
      record_result-IsSound now base result h b
        (known (histories p.port) created base b (s p.port)) in
    let (names, entries, after) =
      report-Reports now created base results ports (set_history p.port kept histories) b
        (λ q. if_elim OptionIsSound (q == p.port) (λ _. sound) (λ _. s q)) in
    (ap (λ l. p.port ∷ l) names, (entry-IsSound p.port result kept sound, entries), after)

run_tick-Reports :
    (round : Round) (histories : Histories) (base : Duration)
    → InBand base.secs
    → AreSound histories
    → Reports round.ports
        (run_tick round.probe round.collect round.now round.created round.ports histories base)
unfolding run_tick
run_tick-Reports round histories base b s =
    report-Reports round.now round.created base _ round.ports histories b s

module _ (scaled_log : ℕ → ℕ) (emit : PortHealthSnapshot → Bool) where
  -- The snapshot of one round.
  pub record SnapshotIsSound (n : ℕ) (round : Round) (s : PortHealthSnapshot) : Type 0 where
    pub revision : s.revision ≡ (n + 1) % 2 ^ 64
    pub ports :
        map (λ (e : PortHealthEntry). e.port) s.entries
        ≡ map (λ (p : PortMapping). p.port) round.ports
    pub entries : All EntryIsSound s.entries

  -- The snapshots of the rounds that are not paused, in order, until one that the channel refuses.
  -- `n` is the revision and `before` are the histories so far.
  abbrev pub Follows : ℕ → Histories → List Round → List PortHealthSnapshot → Type 0
  Follows n before [] snapshots = snapshots ≡ []
  Follows n before (round ∷ rounds) snapshots =
      if round.paused
      then Follows n before rounds snapshots
      else ((s : PortHealthSnapshot) × (rest : List PortHealthSnapshot) × (after : Histories)
          × (snapshots ≡ s ∷ rest)
          × SnapshotIsSound n round s
          × TickShows round.probe round.now round.created
              (base_interval scaled_log adaptive round.ports) before round.ports (s.entries, after)
          × (if emit s then Follows s.revision after rounds rest else (rest ≡ [])))

  adaptive_band : (ports : List PortMapping) → InBand (base_interval scaled_log adaptive ports).secs
  adaptive_band ports =
      let bands =
        delays_in_band 5 300 (record { secs = 0; nanos = 0 }) 0 0 0 (length ports) scaled_log
          (omega arith) in
      (bands.2, bands.3)

  abbrev ticked : Round → Duration → Watcher → List PortHealthEntry × Histories
  ticked round base w =
      run_tick round.probe round.collect round.now round.created round.ports w.histories base

  abbrev snapshot_of : Round → Duration → Watcher → PortHealthSnapshot
  snapshot_of round base w = record {
    revision = (w.revision + 1) % 2 ^ 64;
    entries = (ticked round base w).0;
  }

  abbrev watcher_after : Round → Duration → Watcher → Watcher
  watcher_after round base w = record {
    histories = (ticked round base w).1;
    revision = (w.revision + 1) % 2 ^ 64;
  }

  followed :
      (taken : Bool) (n : ℕ) (before : Histories) (rounds : List Round)
      (rest : List PortHealthSnapshot)
      → Follows n before rounds rest
      → if taken
        then Follows n before rounds (if taken then rest else [])
        else ((if taken then rest else []) ≡ [])
  followed true n before rounds rest h = h
  followed false n before rounds rest h = refl

  -- What a round needs: no port in two rows, and the results of the probes each once.
  abbrev pub IsReady : Round → Type 0
  IsReady round = Reorders round.collect × AreDistinct round.ports

  -- From a sound state, over rounds of distinct ports whose probe results are collected each once in
  -- any order, the watcher emits one snapshot for each round that is not paused, until the channel
  -- refuses one. The revisions count up and the entries are those of the ports in their order. A port
  -- that is due shows the answer of its probe: reachable with no failure and the base interval, or not
  -- reachable with one failure more than before, up to the largest u32, with the latency of the probe,
  -- and it is remembered as probed now. A port that is not due shows the history that it had, without
  -- a latency. What an entry shows is remembered for the next round, and the histories of all other
  -- ports stay. Each entry is alive with no failure, or not reachable with at least one, dead from the
  -- fifth on and restarting before; no entry is degraded, and every interval is from 5 to 300 seconds.
  pub watch-Follows :
      (rounds : List Round) (w : Watcher)
      → All IsReady rounds
      → AreSound w.histories
      → Follows w.revision w.histories rounds (watch scaled_log adaptive emit rounds w)
  unfolding watch
  watch-Follows [] w ready sound = refl
  watch-Follows (round ∷ rounds) w ready sound = elim (Bool-cases round.paused) [
    | inl hidden ↦ rw hidden (watch-Follows rounds w ready.1 sound)
    | inr visible ↦
        let base = base_interval scaled_log adaptive round.ports in
        let (names, entries, after) =
          run_tick-Reports round w.histories base (adaptive_band round.ports) sound in
        let s = snapshot_of round base w in
        let w' = watcher_after round base w in
        let shows =
          run_tick-shows round.probe round.now round.created base round.collect round.ports
            w.histories ready.0.0 ready.0.1 in
        rw visible (
          s,
          if emit s then watch scaled_log adaptive emit rounds w' else [],
          w'.histories,
          refl,
          record { revision = refl; ports = names; entries = entries },
          shows,
          followed (emit s) s.revision w'.histories rounds
              (watch scaled_log adaptive emit rounds w') (watch-Follows rounds w' ready.1 after),
        )
  ]
