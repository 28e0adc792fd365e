-- ===== src/Daemon/Drivers/Firecracker/Processes.antt =====
-- A launch that fails leaves no firecracker process of its instance running unsignalled.
use drover_runner.Base.{
  Text, ◌++◌, lit, ℕ, zero, suc, Bool, true, false, some, List, ◌≡◌, refl, arith, ◌≢◌,
}
use drover_runner.Base.Int.{ℤ}
use drover_runner.Host.{
  Host, Log, Call, M, ok, err, Error, perform, ignore, context, start, remove, ◌>>=◌, ◌>>◌, sleep,
  stat,
}
use drover_runner.Host.Ledger.{held, is_start, is_stopped, texts_eq_refl}
use drover_runner.Host.Shrinks.{
  Shrinks, Clears, FailShrinks, FailClears, Shrinks-perform, Shrinks-on_error, FailShrinks-bind,
  FailShrinks-made, FailClears-bind, FailShrinks-good, FailShrinks-on_error, Clears-keep,
}
use drover_runner.Network.Linux.{LinuxNetworkManager, linux_manager, allocate_tap, release_tap}
use drover_runner.Firecracker.{
  FirecrackerOrchestrator, Formats, command, stop, start_process, await_socket, when_awaited,
  stop_process,
}
use drover_runner.Firecracker.Process.{process_held}
use drover_runner.Daemon.Drivers.{Env, copy_file}
use drover_runner.Daemon.Drivers.Firecracker.{
  FirecrackerDriver, overlay_path, orchestrator, drop_files, drop_vm, launch_on, launch_vm,
}
use drover_runner.Daemon.Drivers.Firecracker.Launch.{
  process-IsMade, copied, spawned, booted, FailClears-booted,
}
use drover_runner.Daemon.Drivers.Firecracker.Failure.{fc, allocated, FailShrinks-launch}

await_socket-ok :
    (h : Host) (f : Formats) (n : ℕ) (socket : Text) (l : Log) (e : Error)
    → (await_socket h f n socket l).0 ≢ err e
unfolding await_socket
await_socket-ok h f zero socket l e = ground arith
await_socket-ok h f (suc n) socket l e = ground (
  arith,
  await_socket-ok h f n socket (ignore (perform h (sleep 100)) (perform h (stat socket) l).1).1 e,
)

module _ (h : Host) (f : Formats) (args : List Text) where
  abbrev makes : Call → Bool
  makes = is_start args

  abbrev frees : Call → Bool
  frees = is_stopped args

  -- Stop signals the process.
  pub Clears-stop :
      (o : FirecrackerOrchestrator) → o.process ≡ some args → Clears makes frees (stop h f o)
  unfolding stop held is_start is_stopped
  Clears-stop o e l = rw (e, stop_process) (ground (arith, texts_eq_refl args))

  FailClears-awaited :
      (o : FirecrackerOrchestrator)
      → o.process ≡ some args
      → FailClears makes frees (await_socket h f 20 o.socket_path >>= when_awaited h f o)
  FailClears-awaited o e =
      FailClears-bind makes frees (await_socket h f 20 o.socket_path) (when_awaited h f o)
        (λ l cause failed. absurd (await_socket-ok h f 20 o.socket_path l cause failed))
        (λ appeared. ended appeared)
    where
      ended : (appeared : Bool) → FailClears makes frees (when_awaited h f o appeared)
      ended true l cause failed = unfold when_awaited in cc
      ended false l cause failed = unfold when_awaited in Clears-stop o e l

module _ (h : Host) (f : Formats) (o : FirecrackerOrchestrator) where
  abbrev own_makes : Call → Bool
  own_makes = is_start (command o)

  abbrev own_frees : Call → Bool
  own_frees = is_stopped (command o)

  abbrev started : FirecrackerOrchestrator
  started = record o { process = some (command o) }

  abbrev launched : M (Unit {0})
  launched =
      context (perform h (start (command o)))
        (lit "failed to start firecracker binary " ++ f.quote o.bin_path)

  FailShrinks-launched : FailShrinks own_makes own_frees launched
  unfolding held
  FailShrinks-launched l e failed k = ground arith

  -- If StartProcess fails, it leaves no process of its command that was not there before.
  pub start_process-process_held :
      (l : Log) (e : Error)
      → (start_process h f o l).0 ≡ err e
      → process_held (command o) (start_process h f o l).1 ≡ true
      → process_held (command o) l ≡ true
  unfolding start_process process_held
  start_process-process_held =
      FailShrinks-bind own_makes own_frees (ignore (perform h (remove o.socket_path)))
        (λ _. launched >> (await_socket h f 20 o.socket_path >>= when_awaited h f started))
        (Shrinks-perform own_makes own_frees h (remove o.socket_path) refl)
        (λ _.
          FailShrinks-made own_makes own_frees launched
            (λ _. await_socket h f 20 o.socket_path >>= when_awaited h f started)
            FailShrinks-launched (λ _. FailClears-awaited h f (command o) started refl))

  -- What StartProcess returns is the orchestrator with its process.
  start_process-started :
      (l : Log) (o' : FirecrackerOrchestrator)
      → (start_process h f o l).0 ≡ ok o'
      → o'.process ≡ some (command o)
  unfolding start_process
  start_process-started l o' e = ground arith

module _ (h : Host) (f : Formats) (env : Env) (bin kernel : Text) (m : LinuxNetworkManager)
    (id image : Text) (memory_mb : ℤ) where
  abbrev vmm : FirecrackerDriver
  vmm = fc h f env bin kernel m id image memory_mb

  abbrev pub machine : FirecrackerOrchestrator
  machine = orchestrator h f env vmm id

  abbrev p_makes : Call → Bool
  p_makes = is_start (command machine)

  abbrev p_frees : Call → Bool
  p_frees = is_stopped (command machine)

  Shrinks-allocated : Shrinks p_makes p_frees (allocated h f env bin kernel m id image memory_mb)
  unfolding allocate_tap held is_start is_stopped
  Shrinks-allocated l k = ground arith

  Shrinks-release : Shrinks p_makes p_frees (release_tap h m id)
  unfolding release_tap held is_start is_stopped
  Shrinks-release l k = ground arith

  Shrinks-drop_files : Shrinks p_makes p_frees (drop_files h f env vmm id)
  unfolding drop_files linux_manager held is_start is_stopped
  Shrinks-drop_files l k =
      ground (arith, Shrinks-release (perform h (remove (overlay_path env id)) l).1)

  Shrinks-copy_file : Shrinks p_makes p_frees (copy_file h image (overlay_path env id))
  unfolding copy_file held is_start is_stopped
  Shrinks-copy_file l k = ground arith

  Clears-drop_machine :
      (o : FirecrackerOrchestrator)
      → o.process ≡ some (command machine)
      → Clears p_makes p_frees (drop_vm h f env vmm id o)
  unfolding drop_vm
  Clears-drop_machine o e =
      Clears-keep p_makes p_frees (stop h f o) (drop_files h f env vmm id)
        (Clears-stop h f (command machine) o e) Shrinks-drop_files

  module _ (started_at : ℕ) (tap : Text × Text) where
    abbrev pub spawning : M FirecrackerOrchestrator
    spawning = spawned h f env bin kernel m id image memory_mb started_at tap

    FailShrinks-spawning : FailShrinks p_makes p_frees spawning
    unfolding process_held
    FailShrinks-spawning =
        FailShrinks-on_error p_makes p_frees (start_process h f machine) (drop_files h f env vmm id)
          (lit "failed to start firecracker orchestrator process")
          (start_process-process_held h f machine) Shrinks-drop_files

    pub spawning-started :
        (l : Log) (o : FirecrackerOrchestrator)
        → (spawning l).0 ≡ ok o
        → o.process ≡ some (command machine)
    spawning-started l o e = ground (arith, start_process-started h f machine l o)

    FailShrinks-launch_on :
        FailShrinks p_makes p_frees (launch_on h f env vmm id image memory_mb started_at tap)
    unfolding launch_on linux_manager
    FailShrinks-launch_on =
        FailShrinks-bind p_makes p_frees
          (copied h f env bin kernel m id image memory_mb started_at tap)
          (λ _. spawning >>= booted h f env bin kernel m id image memory_mb started_at tap)
          (Shrinks-on_error p_makes p_frees (copy_file h image (overlay_path env id))
            (ignore (release_tap h m id)) (lit "failed to allocate unique instance overlay disk")
            Shrinks-copy_file Shrinks-release)
          (λ _.
            FailShrinks-good p_makes p_frees spawning
              (booted h f env bin kernel m id image memory_mb started_at tap)
              (λ o. o.process ≡ some (command machine)) FailShrinks-spawning spawning-started
              (λ o e.
                FailClears-booted h f env bin kernel m id image memory_mb started_at tap p_makes
                  p_frees o (Clears-drop_machine o e)))

  -- If a launch fails, no firecracker process of the instance is there that was not there before
  -- and was not signalled to end.
  pub launch_vm-process_held :
      (l : Log) (e : Error)
      → (launch_vm h f env vmm id image memory_mb l).0 ≡ err e
      → process_held (command machine) (launch_vm h f env vmm id image memory_mb l).1 ≡ true
      → process_held (command machine) l ≡ true
  unfolding process_held
  launch_vm-process_held =
      FailShrinks-launch h f env bin kernel m id image memory_mb p_makes p_frees
        (process-IsMade (command machine))
        (λ started_at.
          FailShrinks-bind p_makes p_frees (allocated h f env bin kernel m id image memory_mb)
            (launch_on h f env vmm id image memory_mb started_at) Shrinks-allocated
            (FailShrinks-launch_on started_at))
