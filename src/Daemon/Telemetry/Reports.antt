-- ===== src/Daemon/Telemetry/Reports.antt =====
-- What the collector reports.
use drover_runner.Base.{
  Text, ◌++◌, lit, ℕ, ◌+◌, ◌/◌, ◌%◌, ◌^◌, ◌≤◌, ◌<◌, ltb, length, List, [], ◌∷◌, Option, none, ◌≡◌,
  ◌≢◌, ◌⊎◌, refl, ap, ◌∙◌, sym, subst, true, lt→ltb, inl, inr, arith,
}
use drover_runner.Host.{and_then-ok, Host, Log, Error, Event, ok, now, print}
use drover_runner.Daemon.Types.{ActiveVm}
use drover_runner.Daemon.Telemetry.{
  chart_sign, vm_line, batch_line, report_vm, report_all, collect_metrics, Wake, tick, done,
  collect_loop,
}

abbrev printed : Text → Option Error → Event
printed t f = record { call = print t; fault = f }

abbrev clock_read : Event
clock_read = record { call = now; fault = none }

-- One line for each instance, in order, with its id and state, a CPU number below 5 and between
-- 1024 and 6023 bytes sent; before each line the clock is read twice.
abbrev pub Reported : List (Text × ActiveVm) → Log → Log → Type 0
Reported [] l l' = l' ≡ l
Reported ((id, active) ∷ vms) l l' =
    (cpu : ℕ) × (net : ℕ) × (f : Option Error) × (cpu < 5)
    × (1024 ≤ net)
    × (net ≤ 6023)
    × Reported vms (printed (vm_line id active.state cpu net) f ∷ clock_read ∷ clock_read ∷ l) l'

-- The lines of the instances, and behind them the line with their number, if there is one.
abbrev pub Collected : List (Text × ActiveVm) → Log → Log → Type 0
Collected vms l l' =
    (m : Log) × Reported vms l m
    × (((vms ≡ []) × (l' ≡ m))
        ⊎ ((vms ≢ []) × ((f : Option Error) × (l' ≡ printed (batch_line (length vms)) f ∷ m))))

module _ (h : Host) where
  report_all-Reported :
      (vms : List (Text × ActiveVm)) (n : ℕ) (l : Log)
      → ((report_all h vms n l).0 ≡ ok (n + length vms)) × Reported vms l (report_all h vms n l).1
  unfolding report_all report_vm
  report_all-Reported [] n l = (ap ok (omega arith), refl)
  report_all-Reported ((id, active) ∷ vms) n l =
      let cpu : ℕ = h.number l now / 10 ^ 9 % 5 in
      let net : ℕ = 1024 + h.number (clock_read ∷ l) now % 5000 in
      let line = print (vm_line id active.state cpu net) in
      let f = h.fault (clock_read ∷ clock_read ∷ l) line in
      let (counted, rest) =
        report_all-Reported vms (n + 1)
          (printed (vm_line id active.state cpu net) f ∷ clock_read ∷ clock_read ∷ l) in
      (counted ∙ ap ok (omega arith), (cpu, net, f, omega arith, omega arith, omega arith, rest))

  -- A collection prints a line for each instance of the table, in order and with its id and state,
  -- and then the number of the instances, or nothing for an empty table.
  pub collect_metrics-Collected :
      (vms : List (Text × ActiveVm)) (l : Log)
      → ((collect_metrics h vms l).0 ≡ ok tt) × Collected vms l (collect_metrics h vms l).1
  unfolding collect_metrics
  collect_metrics-Collected [] l = unfold report_all in (refl, (l, refl, inl (refl, refl)))
  collect_metrics-Collected ((id, active) ∷ vms) l =
      let all : List (Text × ActiveVm) = (id, active) ∷ vms in
      let (counted, reported) = report_all-Reported all 0 l in
      let some_vm : ltb 0 (0 + length all) ≡ true = lt→ltb 0 (0 + length all) (omega arith) in
      let count : 0 + length all ≡ length all = omega arith in
      rw (counted, some_vm, count)
        (refl, ((report_all h all 0 l).1, reported, inr (λ e. absurd (cc e), (_, refl))))

  -- What the loop does: a collection at each tick before the end of the context, and then a last
  -- line, behind which nothing is done.
  abbrev pub Rounds : List Wake → Log → Log → Type 0
  Rounds [] l l' = l' ≡ l
  Rounds (done ∷ wakes) l l' =
      (f : Option Error) × (l' ≡ printed (chart_sign ++ lit " Telemetry Collector stopped.") f ∷ l)
  Rounds (tick vms ∷ wakes) l l' = (m : Log) × Collected vms l m × Rounds wakes m l'

  -- The loop never fails. At each tick up to the end of the context it prints a line for each
  -- instance that the table holds then, in order and with its id and state, and their number if
  -- there are any; then it says that it stopped and does nothing more.
  pub collect_loop-Rounds :
      (wakes : List Wake) (l : Log)
      → ((collect_loop h wakes l).0 ≡ ok tt) × Rounds wakes l (collect_loop h wakes l).1
  unfolding collect_loop
  collect_loop-Rounds [] l = (refl, refl)
  collect_loop-Rounds (done ∷ wakes) l = (refl, (_, refl))
  collect_loop-Rounds (tick vms ∷ wakes) l =
      let (fine, collected) = collect_metrics-Collected vms l in
      let (later, rounds) = collect_loop-Rounds wakes (collect_metrics h vms l).1 in
      let step : collect_loop h (tick vms ∷ wakes) l
          ≡ collect_loop h wakes (collect_metrics h vms l).1 =
        and_then-ok (collect_metrics h vms l) (λ _. collect_loop h wakes) tt fine in
      (
        ap (λ p. p.0) step ∙ later,
        (
          (collect_metrics h vms l).1,
          collected,
          subst (λ p. Rounds wakes (collect_metrics h vms l).1 p.1) (sym step) rounds,
        ),
      )
