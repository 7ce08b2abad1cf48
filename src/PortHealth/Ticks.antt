-- ===== src/PortHealth/Ticks.antt =====
-- What one tick of port_health.rs shows and remembers of each port, by the answer of its probe.
use egress_apikey.Prelude.{
  ℕ, ◌+◌, ◌≡◌, refl, sym, ap, ◌∙◌, Bool, true, false, String, Option, none, some, List, [], ◌∷◌,
  min, All, if◌then◌else◌, u32_max,
}
use mathlib.Core.Path.{subst}
use egress_apikey.Throttle.{Duration}
use egress_apikey.Snapshot.{PortMapping}
use egress_apikey.PortHealth.{
  PortHealthEntry, PortHistory, new, Histories, ProbeResult, history_or, record_result, entry,
  set_history, result_of, is_due, report, run_tick,
}
use egress_apikey.PortHealth.Results.{
  DiffersFrom, AreDistinct, Reorders, eq_refl, eq_sym, All-map2, HasAnswer, answer_of,
  collect-HasAnswer,
}

-- An answer clears the failures and sets the interval to the base; a probe without one is one more
-- failure, up to the largest u32.
abbrev pub AfterProbe : Bool → Option ℕ → ℕ → Duration → PortHealthEntry → Type 0
AfterProbe true latency fails base e =
    (e.reachable ≡ true) × (e.fails ≡ 0) × (e.latency_ms ≡ latency) × (e.interval_secs ≡ base.secs)
AfterProbe false latency fails base e =
    (e.reachable ≡ false) × (e.fails ≡ min (fails + 1) u32_max) × (e.latency_ms ≡ latency)

abbrev pub Remembers : PortHealthEntry → PortHistory → Type 0
Remembers e kept =
    (kept.last_reachable ≡ e.reachable)
    × (kept.fails ≡ e.fails)
    × (kept.interval.secs ≡ e.interval_secs)

module _ (probe : ℕ → String → Bool × Option ℕ) (now : ℕ) (created : ℕ) (base : Duration) where
  -- A due port is shown by the answer of its probe, at this instant; another one as it was, without a
  -- latency.
  abbrev pub ShowsAt : Bool → PortHistory → PortMapping → PortHealthEntry → PortHistory → Type 0
  ShowsAt true h p e kept =
      AfterProbe (probe p.port p.protocol).0 (probe p.port p.protocol).1 h.fails base e
      × (kept.last_probe ≡ now)
  ShowsAt false h p e kept = (kept ≡ h) × (e.latency_ms ≡ none)

  -- The entry of a port and the history kept of it.
  abbrev pub Shows : Histories → Histories → PortMapping → PortHealthEntry → Type 0
  Shows before after p e =
      (kept : PortHistory) × (e.port ≡ p.port)
      × (after p.port ≡ some kept)
      × Remembers e kept
      × ShowsAt (is_due now (before p.port)) (history_or (new created base) (before p.port)) p e
          kept

  -- One entry for each port, in their order.
  abbrev pub ShowsEach : Histories → Histories → List PortMapping → List PortHealthEntry → Type 0
  ShowsEach before after [] [] = Unit
  ShowsEach before after (p ∷ ports) (e ∷ entries) =
      Shows before after p e × ShowsEach before after ports entries
  ShowsEach before after _ _ = ⊥

  after_answer :
      (h : PortHistory) (p : PortMapping) (answered : Bool) (latency : Option ℕ)
      → let r : Option ProbeResult =
          some (record { probed_port = p.port; answered = answered; latency = latency }) in
        let kept = record_result now base r h in
        AfterProbe answered latency h.fails base (entry p.port r kept) × (kept.last_probe ≡ now)
  unfolding record_result
  after_answer h p true latency = ((refl, refl, refl, refl), refl)
  after_answer h p false latency = ((refl, refl, refl), refl)

  shows_at :
      (due : Bool) (h : PortHistory) (p : PortMapping)
      → let r : Option ProbeResult = if due then some (answer_of probe p) else none in
        let kept = record_result now base r h in
        Remembers (entry p.port r kept) kept × ShowsAt due h p (entry p.port r kept) kept
  unfolding record_result
  shows_at true h p =
      ((refl, refl, refl), after_answer h p (probe p.port p.protocol).0 (probe p.port p.protocol).1)
  shows_at false h p = ((refl, refl, refl), (refl, refl))

  -- The pass over the ports, given the results of the tick.
  module _ (results : List ProbeResult) where
    abbrev reported : List PortMapping → Histories → List PortHealthEntry × Histories
    reported ports histories = report now created base results ports histories

    abbrev kept_of : PortMapping → Option PortHistory → PortHistory
    kept_of p o =
        record_result now base (result_of p.port results) (history_or (new created base) o)

    report-other :
        (q : ℕ) (ports : List PortMapping) (histories : Histories)
        → All (DiffersFrom q) ports
        → (reported ports histories).1 q ≡ histories q
    unfolding report
    report-other q [] histories h = refl
    report-other q (p ∷ ports) histories h =
        let kept = kept_of p (histories p.port) in
        report-other q ports (set_history p.port kept histories) h.1
        ∙ ap (λ (b : Bool). if b then some kept else histories q) h.0

    shown :
        (before after : Histories) (p : PortMapping) (o : Option PortHistory)
        → before p.port ≡ o
        → HasAnswer probe now before results p
        → after p.port ≡ some (kept_of p o)
        → Shows before after p (entry p.port (result_of p.port results) (kept_of p o))
    shown before after p o same answer kept =
        let due = is_due now (before p.port) in
        let h = history_or (new created base) (before p.port) in
        let Fine : Option ProbeResult → PortHistory → Type 0 = λ r g.
          let k = record_result now base r g in
          Remembers (entry p.port r k) k × ShowsAt due h p (entry p.port r k) k in
        let (remembered, shows) =
          subst (λ o. Fine (result_of p.port results) (history_or (new created base) o)) same
            (subst (λ r. Fine r h) (sym answer) (shows_at due h p)) in
        (kept_of p o, refl, kept, remembered, shows)

    report-ShowsEach :
        (before : Histories) (ports : List PortMapping) (histories : Histories)
        → AreDistinct ports
        → All (λ (p : PortMapping). before p.port ≡ histories p.port) ports
        → All (HasAnswer probe now before results) ports
        → ShowsEach before (reported ports histories).1 ports (reported ports histories).0
    unfolding report
    report-ShowsEach before [] histories distinct same answers = tt
    report-ShowsEach before (p ∷ ports) histories distinct same answers =
        let kept = kept_of p (histories p.port) in
        let next = set_history p.port kept histories in
        let kept_after : (reported ports next).1 p.port ≡ some kept =
          report-other p.port ports next distinct.0
          ∙ ap (λ (b : Bool). if b then some kept else histories p.port) (eq_refl p.port) in
        (
          shown before (reported ports next).1 p (histories p.port) same.0 answers.0 kept_after,
          report-ShowsEach before ports next distinct.1
              (All-map2 (unset kept) ports distinct.0 same.1) answers.1,
        )
      where
        unset :
            (kept : PortHistory) (q : PortMapping)
            → DiffersFrom p.port q
            → before q.port ≡ histories q.port
            → before q.port ≡ set_history p.port kept histories q.port
        unset kept q differs e =
            e
            ∙ sym (
                ap (λ (b : Bool). if b then some kept else histories q.port)
                  (eq_sym p.port q.port differs))

  unchanged :
      (before : Histories) (ports : List PortMapping)
      → All (λ (p : PortMapping). before p.port ≡ before p.port) ports
  unchanged before [] = tt
  unchanged before (p ∷ ports) = (refl, unchanged before ports)

  -- A tick shows each port, and leaves the histories of the others.
  abbrev pub TickShows : Histories → List PortMapping → List PortHealthEntry × Histories → Type 0
  TickShows before ports (entries, after) =
      ShowsEach before after ports entries
      × ((q : ℕ) → All (DiffersFrom q) ports → after q ≡ before q)

  pub run_tick-shows :
      (collect : List ProbeResult → List ProbeResult) (ports : List PortMapping)
      (before : Histories)
      → Reorders collect
      → AreDistinct ports
      → TickShows before ports (run_tick probe collect now created ports before base)
  unfolding run_tick
  run_tick-shows collect ports before reorders distinct =
      let answers = collect-HasAnswer probe now before collect ports reorders distinct in
      (
        report-ShowsEach _ before ports before distinct (unchanged before ports) answers,
        λ q h. report-other _ q ports before h,
      )
