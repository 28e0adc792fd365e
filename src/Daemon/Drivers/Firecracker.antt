-- ===== src/Daemon/Drivers/Firecracker.antt =====
-- FirecrackerDriver of pkg/daemon/driver.go.
pub mod Resources
pub mod Launch
pub mod Failure
pub mod Processes
pub mod Overlay
pub mod Teardown
pub mod Disposal
pub mod Launched
pub mod Running
pub mod Started
pub mod Boot
use drover_runner.Base.{Text, ◌++◌, lit, List, [], ◌∷◌, Option, none, some, ℕ}
use drover_runner.Base.Int.{ℤ, pos}
use drover_runner.Host.{
  Host, M, pure, ignore, attempt, context, on_error, perform, Result, ok, err, remove, ◌>>=◌, ◌>>◌,
  Log,
}
use drover_runner.Network.Manager.{new_manager}
use drover_runner.Network.{NetworkManager}
use drover_runner.Storage.{clock, shred_file}
use drover_runner.Firecracker.{
  Formats, FirecrackerOrchestrator, new_orchestrator, command, start_process, configure,
  configure_network, start_vm, stop,
}
use drover_runner.Daemon.Types.{ActiveVm, HypervisorDriver}
use drover_runner.Daemon.Drivers.{Env, read_logs, audit_shred, copy_file}

pub record FirecrackerDriver : Type 0 where
  pub bin_path : Text
  pub kernel_path : Text
  pub net_mgr : NetworkManager

unfoldable pub overlay_path : Env → Text → Text
overlay_path env id = env.temp_file (lit "dvr-fc-overlay-" ++ id ++ lit ".ext4")

unfoldable pub socket_path : Env → Text → Text
socket_path env id = env.temp_file (lit "dvr-fc-" ++ id ++ lit ".socket")

-- `if errStop != nil { return errStop }; return errNet`
unfoldable pub first_error : Result (Unit {0}) → Result (Unit {0}) → Result (Unit {0})
first_error (ok _) net = net
first_error (err e) net = err e

-- NewFirecrackerDriver, on an operating system.
unfoldable pub new_firecracker_driver : Host → (Text → Text) → Text → FirecrackerDriver
new_firecracker_driver h sha256 goos = record {
  bin_path = lit "firecracker";
  kernel_path = lit "/var/lib/dvr/kernels/vmlinux";
  net_mgr = new_manager h sha256 goos (lit "dvr-br0") (lit "172.20.0.1/16");
}

module _ (h : Host) (f : Formats) (env : Env) (d : FirecrackerDriver) where
  unfoldable pub orchestrator : Text → FirecrackerOrchestrator
  unfolding socket_path new_orchestrator
  orchestrator id = new_orchestrator (socket_path env id) d.bin_path

  -- What is undone on an error: the overlay and the TAP device, and before them the process.
  unfoldable pub drop_files : Text → M (Unit {0})
  unfolding overlay_path
  drop_files id =
      ignore (perform h (remove (overlay_path env id))) >> ignore (d.net_mgr.release_tap id)

  unfoldable pub drop_vm : Text → FirecrackerOrchestrator → M (Unit {0})
  unfolding drop_files
  drop_vm id o = ignore (stop h f o) >> drop_files id

  unfoldable pub stop_vm : Text → ℤ → ℕ → FirecrackerOrchestrator → M (Unit {0})
  unfolding overlay_path first_error
  stop_vm id memory_mb started o = do
    stopped ← attempt (stop h f o)
    shredded ← attempt (shred_file h env.sha256 (overlay_path env id))
    audit_shred h env id memory_mb (overlay_path env id) started shredded
    released ← attempt (d.net_mgr.release_tap id)
    λ l. (first_error stopped released, l)

  unfoldable pub active_vm : Text → ℤ → ℕ → FirecrackerOrchestrator → ActiveVm
  unfolding stop_vm
  active_vm id memory_mb started o = record {
    id = id;
    ip = lit "172.20.0.2";
    state = lit "running";
    stop = stop_vm id memory_mb started o;
    logs = read_logs h (command o);
  }

  -- Steps 5 to 7, on the process that was started.
  unfoldable pub boot : Text → ℤ → Text × Text → FirecrackerOrchestrator → M (Unit {0})
  unfolding overlay_path drop_vm
  boot id memory_mb tap o = do
    on_error (configure h f o d.kernel_path (overlay_path env id) (pos 1) memory_mb) (drop_vm id o)
        (lit "failed to configure firecracker VM over UDS")
    on_error (configure_network h f o tap.0 tap.1) (drop_vm id o)
        (lit "failed to configure firecracker VM network over UDS")
    on_error (start_vm h f o) (drop_vm id o) (lit "failed to boot firecracker VM")

  -- Steps 3 to 7, with the TAP device.
  unfoldable pub launch_on : Text → Text → ℤ → ℕ → Text × Text → M ActiveVm
  unfolding overlay_path orchestrator drop_files boot active_vm
  launch_on id image memory_mb started tap = do
    on_error (copy_file h image (overlay_path env id)) (ignore (d.net_mgr.release_tap id))
        (lit "failed to allocate unique instance overlay disk")
    o ←
        on_error (start_process h f (orchestrator id)) (drop_files id)
          (lit "failed to start firecracker orchestrator process")
    boot id memory_mb tap o
    pure (active_vm id memory_mb started o)

  unfoldable pub launch_vm : Text → Text → ℤ → M ActiveVm
  unfolding launch_on
  launch_vm id image memory_mb = do
    started ← clock h
    context d.net_mgr.setup_bridge (lit "failed to setup host network bridge")
    tap ← context (d.net_mgr.allocate_tap id) (lit "failed to allocate host TAP interface")
    launch_on id image memory_mb started tap

  unfoldable pub firecracker_driver : HypervisorDriver
  unfolding launch_vm
  firecracker_driver = record {
    launch_vm = λ id image memory_mb env_vars. launch_vm id image memory_mb;
  }
