-- ===== src/Examples/Telemetry.antt =====
-- The telemetry collector over a table of one instance.
use drover_runner.Base.{[], ◌∷◌, ◌≡◌, List}
use drover_runner.Host.{ok}
use drover_runner.Daemon.Telemetry.{Wake, tick, done, collect_loop}
use drover_runner.Daemon.Telemetry.Reports.{Rounds, collect_loop-Rounds}
use drover_runner.Examples.Hosts.{good_host}
use drover_runner.Examples.Server.{one_vm}

abbrev wakes : List Wake
wakes = tick one_vm.vms ∷ tick [] ∷ done ∷ []

collect_loop-Rounds_example :
    ((collect_loop good_host wakes []).0 ≡ ok tt)
    × Rounds good_host wakes [] (collect_loop good_host wakes []).1
collect_loop-Rounds_example = collect_loop-Rounds good_host wakes []
