-- ===== src/Daemon/Drivers/Firecracker/Boot.antt =====
-- What a guest is told before it is started.
use drover_runner.Base.{Text, lit, List, [], ◌∷◌, ◌≡◌, ◌++◌}
use drover_runner.Base.Int.{ℤ, pos}
use drover_runner.Host.{Host, Log, ok, M, on_error, ◌>>◌}
use drover_runner.Firecracker.{
  Formats, Payload, FirecrackerOrchestrator, network_config, configure, configure_network, start_vm,
}
use drover_runner.Firecracker.Requests.{
  Sent, Sends-guarded, Sends-then, configuration, configure-Sends, configure_network-Sends,
  start_action, start_vm-Sends,
}
use drover_runner.Daemon.Drivers.{Env}
use drover_runner.Daemon.Drivers.Firecracker.{FirecrackerDriver, overlay_path, drop_vm, boot}

module _ (h : Host) (f : Formats) (env : Env) (d : FirecrackerDriver) (id : Text) (memory_mb : ℤ)
    (tap : Text × Text) (o : FirecrackerOrchestrator) where
  abbrev asked : List (Text × Payload)
  asked = configuration h f o d.kernel_path (overlay_path env id) (pos 1) memory_mb

  abbrev link : Text × Payload
  link = (lit "/network-interfaces/eth0", network_config tap.0 tap.1)

  abbrev action : Text × Payload
  action = (lit "/actions", start_action h f o)

  -- The requests of a boot.
  abbrev pub boot_requests : List (Text × Payload)
  boot_requests = asked ++ link ∷ action ∷ []

  -- A boot that succeeds has sent these requests and done nothing else: the machine, the boot
  -- source and the overlay as its root drive, the TAP device and MAC address, and last the start;
  -- each with the JSON text of its payload, in this order, and each answered by 200 or 204.
  pub boot-Sent :
      (l : Log)
      → (boot h f env d id memory_mb tap o l).0 ≡ ok tt
      → Sent h f o boot_requests l (boot h f env d id memory_mb tap o l).1
  unfolding boot
  boot-Sent =
      let guard : M (Unit {0}) = drop_vm h f env d id o in
      let machine = configure h f o d.kernel_path (overlay_path env id) (pos 1) memory_mb in
      let configured = on_error machine guard (lit "failed to configure firecracker VM over UDS") in
      let network = configure_network h f o tap.0 tap.1 in
      let linked =
        on_error network guard (lit "failed to configure firecracker VM network over UDS") in
      let started = on_error (start_vm h f o) guard (lit "failed to boot firecracker VM") in
      Sends-then h f o asked (link ∷ action ∷ []) configured (linked >> started)
        (Sends-guarded h f o asked machine guard (lit "failed to configure firecracker VM over UDS")
          (configure-Sends h f o d.kernel_path (overlay_path env id) (pos 1) memory_mb))
        (Sends-then h f o (link ∷ []) (action ∷ []) linked started
          (Sends-guarded h f o (link ∷ []) network guard
            (lit "failed to configure firecracker VM network over UDS")
            (configure_network-Sends h f o tap.0 tap.1))
          (Sends-guarded h f o (action ∷ []) (start_vm h f o) guard
            (lit "failed to boot firecracker VM") (start_vm-Sends h f o)))
