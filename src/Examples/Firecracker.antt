-- ===== src/Examples/Firecracker.antt =====
-- The Firecracker driver on hosts where one kind of call fails.
use drover_runner.Base.{Text, lit, ◌==◌, [], ◌∷◌, none, true, false, ◌≡◌, refl}
use drover_runner.Base.Int.{pos}
use drover_runner.Host.{Host, Error, wrap, err, run, start, Event}
use drover_runner.Host.Ledger.{is_run}
use drover_runner.Network.{tap_name}
use drover_runner.Network.Linux.{tap_add, linux_manager, show_bridge}
use drover_runner.Network.Allocation.{tap_held}
use drover_runner.Firecracker.{
  configure, put_json, configure_network, start_vm, new_orchestrator, command, start_process,
  FirecrackerOrchestrator,
}
use drover_runner.Firecracker.Process.{process_held}
use drover_runner.Daemon.Drivers.{copy_file}
use drover_runner.Daemon.Drivers.Firecracker.{
  launch_vm, launch_on, orchestrator, overlay_path, boot, FirecrackerDriver,
}
use drover_runner.Daemon.Drivers.Firecracker.Boot.{boot_requests, boot-Sent}
use drover_runner.Firecracker.Requests.{Sent}
use drover_runner.Daemon.Drivers.Firecracker.Launch.{driver}
use drover_runner.Daemon.Drivers.Firecracker.Overlay.{file_held, launch_on-overlay_left}
use drover_runner.Daemon.Drivers.Firecracker.Failure.{launch_vm-tap_held}
use drover_runner.Daemon.Drivers.Firecracker.Processes.{launch_vm-process_held}
use drover_runner.Examples.Hosts.{
  host_with, good_host, full_disk, no_binary, broken, formats, env, bridge,
}

abbrev id : Text
id = lit "inst-1"

launch_on-overlay_left_example :
    let after =
      launch_on full_disk formats env
        (driver full_disk formats env (lit "firecracker") (lit "vmlinux") bridge)
        id
        (lit "img")
        (pos 64)
        0
        ([], [])
        [] in
    (after.0 ≡ err (wrap (lit "failed to allocate unique instance overlay disk") broken))
    × (file_held (overlay_path env id) after.1 ≡ true)
    × (tap_held (tap_name id) after.1 ≡ false)
unfolding copy_file
launch_on-overlay_left_example =
    launch_on-overlay_left full_disk formats env (lit "firecracker") (lit "vmlinux") bridge id
      (lit "img") (pos 64) 0 ([], []) [] broken refl refl refl

abbrev tap_event : Event
tap_event = record { call = run (tap_add (tap_name id)); fault = none }

abbrev no_tuntap : Host
no_tuntap = host_with (is_run (tap_add (tap_name id)))

abbrev tap_error : Error
tap_error =
    wrap (lit "failed to allocate host TAP interface")
      (wrap (lit "failed to create TAP link") broken)

launch_vm-tap_held_example : tap_held (tap_name id) (tap_event ∷ []) ≡ true
unfolding launch_vm linux_manager is_run show_bridge ◌==◌ lit tap_held
launch_vm-tap_held_example =
    launch_vm-tap_held no_tuntap formats env (lit "firecracker") (lit "vmlinux") bridge id
      (lit "img") (pos 64) (tap_event ∷ []) tap_error refl refl

abbrev vmm : FirecrackerOrchestrator
vmm = new_orchestrator (lit "inst-1.socket") (lit "firecracker")

abbrev spawn_event : FirecrackerOrchestrator → Event
spawn_event o = record { call = start (command o); fault = none }

abbrev own : FirecrackerOrchestrator
own =
    orchestrator no_binary formats env
      (driver no_binary formats env (lit "firecracker") (lit "vmlinux") bridge) id

launch_vm-process_held_example : process_held (command own) (spawn_event own ∷ []) ≡ true
unfolding launch_vm linux_manager lit new_orchestrator ◌==◌ process_held copy_file start_process
launch_vm-process_held_example =
    launch_vm-process_held no_binary formats env (lit "firecracker") (lit "vmlinux") bridge id
      (lit "img") (pos 64) (spawn_event own ∷ [])
      (wrap (lit "failed to start firecracker orchestrator process")
        (wrap (lit "failed to start firecracker binary firecracker") broken))
      refl refl

abbrev fc : FirecrackerDriver
fc = driver good_host formats env (lit "firecracker") (lit "vmlinux") bridge

boot-Sent_example :
    Sent good_host formats vmm
      (boot_requests good_host formats env fc id
        (pos 64)
        (lit "dvr-t-inst-1", lit "06:00:01:02:03:04")
        vmm)
      []
      (boot good_host formats env fc id
        (pos 64)
        (lit "dvr-t-inst-1", lit "06:00:01:02:03:04")
        vmm
        []).1
unfolding boot configure put_json configure_network start_vm
boot-Sent_example =
    boot-Sent good_host formats env fc id (pos 64) (lit "dvr-t-inst-1", lit "06:00:01:02:03:04") vmm
      [] refl
