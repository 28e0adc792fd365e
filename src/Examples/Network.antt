-- ===== src/Examples/Network.antt =====
-- The network at concrete names, addresses and hosts.
use drover_runner.Base.{lit, ◌++◌, ◌≡◌, ◌≢◌, refl, ◌⊎◌, ◌∷◌, [], ◌*◌, ◌+◌, arith, none, some}
use drover_runner.Host.{run, ok, Error}
use drover_runner.Network.{tap_name}
use drover_runner.Network.Linux.{subnet, setup_bridge, show_bridge}
use drover_runner.Network.Subnet.{subnet-dotted, dotted}
use drover_runner.Network.Plan.{setup_bridge-Outcome, Outcome, bridge_plan, ran}
use drover_runner.Daemon.Ids.{instance_id}
use drover_runner.Daemon.Taps.{tap_name-instance_id_injective, tap_name_clash}
use drover_runner.Examples.Hosts.{good_host, bridge}

tap_name-instance_id_injective_example : 3 + 4 ≡ 7
tap_name-instance_id_injective_example =
    tap_name-instance_id_injective (3 + 4) 7 (omega arith) (omega arith) refl

tap_name_clash_example :
    (tap_name (instance_id (1000 * 10 + 5)) ≡ tap_name (instance_id 1000))
    × (instance_id (1000 * 10 + 5) ≢ instance_id 1000)
tap_name_clash_example = tap_name_clash 1000 5 (omega arith) (omega arith)

subnet-dotted_example :
    subnet (dotted (lit "10") (lit "9") (lit "8") (lit "7") ++ b'/' ∷ lit "24")
    ≡ lit "10" ++ lit "." ++ lit "9" ++ lit ".0.0/" ++ lit "24"
unfolding lit
subnet-dotted_example =
    subnet-dotted (lit "10") (lit "9") (lit "8") (lit "7") (lit "24") (omega arith, omega arith)
      (omega arith, omega arith) (omega arith, omega arith) (omega arith, omega arith) (omega arith)

setup_bridge-Outcome_example :
    ((good_host.fault [] (run (show_bridge bridge)) ≡ none)
      × (setup_bridge good_host bridge [] ≡ (ok tt, ran (show_bridge bridge) none ∷ [])))
    ⊎ ((missing : Error) × (good_host.fault [] (run (show_bridge bridge)) ≡ some missing)
        × Outcome
            (bridge_plan bridge)
            (ran (show_bridge bridge) (some missing) ∷ [])
            (setup_bridge good_host bridge []))
setup_bridge-Outcome_example = setup_bridge-Outcome good_host bridge []
