-- ===== src/Daemon/Telemetry.antt =====
-- pkg/daemon/telemetry.go: the collector that reports on the instances at each tick. The table is
-- what the server holds when the tick is handled; how a duration prints, %v, is a parameter.
pub mod Reports
use drover_runner.Base.{
  Text, ◌++◌, lit, decimal, ℕ, suc, ◌+◌, ◌^◌, ◌/◌, ◌%◌, ltb, length, if◌then◌else◌, List, [], ◌∷◌,
}
use drover_runner.Base.Int.{ℤ, is_positive}
use drover_runner.Host.{Host, Log, M, pure, ignore, perform, print, ◌>>=◌, ◌>>◌}
use drover_runner.Storage.{clock}
use drover_runner.Daemon.Types.{ActiveVm}
use drover_runner.Daemon.Config.{Config, ten_seconds}

-- The bytes of the chart that begins each line.
abbrev pub chart_sign : Text
chart_sign = 240 ∷ 159 ∷ 147 ∷ 138 ∷ []

-- The time between two ticks.
unfoldable pub interval : Config → ℤ
interval cfg = if is_positive cfg.telemetry_secs then cfg.telemetry_secs else ten_seconds

-- The line of an instance: the CPU is one and a half percent and these, the memory 32 MB.
unfoldable pub vm_line : Text → Text → ℕ → ℕ → Text
vm_line id state cpu net =
    chart_sign
    ++ (lit " [Telemetry] VM Slice "
        ++ (id
            ++ (lit " | State: "
                ++ (state
                    ++ (lit " | CPU: "
                        ++ (decimal (1 + cpu)
                            ++ (lit ".50% | RAM: 32 MB | Net TX: "
                                ++ (decimal net
                                    ++ lit " bytes (ClickHouse telemetry queued)"))))))))

unfoldable pub batch_line : ℕ → Text
batch_line count =
    chart_sign
    ++ (lit " [Telemetry] Dispatching telemetry batch for "
        ++ (decimal count ++ lit " active Guest VM(s) to ClickHouse metrics pool..."))

-- What the select of the loop meets: a tick, with the table then, or the end of the context.
pub data Wake : Type 0 where
  tick : List (Text × ActiveVm) → Wake
  done : Wake

module _ (h : Host) where
  -- The callback of Range on one instance: two readings of the clock, and the line.
  unfoldable pub report_vm : Text → ActiveVm → M (Unit {0})
  unfolding vm_line
  report_vm id active = clock h >>= λ t. clock h >>= λ u.
      ignore (perform h (print (vm_line id active.state (t / 10 ^ 9 % 5) (1024 + u % 5000))))

  -- Range with the count of what it met, which starts at a number.
  unfoldable pub report_all : List (Text × ActiveVm) → ℕ → M ℕ
  unfolding report_vm
  report_all [] count = pure count
  report_all ((id, active) ∷ vms) count = report_vm id active >> report_all vms (count + 1)

  unfoldable pub collect_metrics : List (Text × ActiveVm) → M (Unit {0})
  unfolding report_all batch_line
  collect_metrics vms = report_all vms 0 >>= λ active_count.
      if ltb 0 active_count then ignore (perform h (print (batch_line active_count))) else pure tt

  -- The goroutine, until the context ends or the wakes that are given have passed.
  unfoldable pub collect_loop : List Wake → M (Unit {0})
  unfolding collect_metrics
  collect_loop [] = pure tt
  collect_loop (done ∷ wakes) =
      ignore (perform h (print (chart_sign ++ lit " Telemetry Collector stopped.")))
  collect_loop (tick vms ∷ wakes) = collect_metrics vms >> collect_loop wakes

  unfoldable pub start_collector : (ℤ → Text) → Config → List Wake → M (Unit {0})
  unfolding collect_loop interval
  start_collector show_duration cfg wakes =
      ignore (
        perform h (
          print (
            chart_sign
            ++ (lit " Telemetry Collector started (polling every "
                ++ (show_duration (interval cfg) ++ lit ")")))))
      >> collect_loop wakes
