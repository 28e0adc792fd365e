-- ===== src/Daemon/Drivers/Firecracker/Started.antt =====
-- A launch that succeeds leaves the TAP device and the firecracker process of its instance there.
use drover_runner.Base.{Text, ◌++◌, lit, eq_refl, ℕ, Bool, true, false, List, ◌≡◌, refl, ◌∙◌, arith}
use drover_runner.Base.Int.{ℤ}
use drover_runner.Host.{
  Host, Log, Call, M, ok, pure, perform, ignore, context, remove, start, run, send_signal,
  send_group, ◌>>=◌, ◌>>◌,
}
use drover_runner.Host.Ledger.{held, is_run, is_start, is_stopped, texts_eq_refl}
use drover_runner.Host.Grows.{
  Grows, Makes, is_freer, Grows-perform, Grows-bind, Grows-on_error, Makes-first, Makes-second,
  Makes-on_error,
}
use drover_runner.Network.{tap_name}
use drover_runner.Network.Linux.{
  LinuxNetworkManager, linux_manager, allocate_tap, tap_add, link_delete, release_tap,
}
use drover_runner.Network.Allocation.{tap_held, tap_held-allocate_tap_ok}
use drover_runner.Storage.{clock}
use drover_runner.Firecracker.{FirecrackerOrchestrator, Formats, command, start_process}
use drover_runner.Firecracker.Process.{process_held}
use drover_runner.Daemon.Types.{ActiveVm}
use drover_runner.Daemon.Drivers.{Env, copy_file}
use drover_runner.Daemon.Drivers.Firecracker.{
  active_vm, drop_files, boot, launch_on, launch_vm, orchestrator, overlay_path,
}
use drover_runner.Daemon.Drivers.Firecracker.Launch.{driver, copied, spawned, booted}
use drover_runner.Daemon.Drivers.Firecracker.Failure.{allocated, bridged}
use drover_runner.Daemon.Drivers.Firecracker.Running.{
  Grows-copy_file, Grows-boot, appearing, Grows-appearing,
}

spares_delete : (args : List Text) (c : Call) → is_freer c ≡ false → is_run args c ≡ false
unfolding is_run
spares_delete args (run a) e = absurd (cc e)
spares_delete args _ e = refl

spares_signals : (args : List Text) (c : Call) → is_freer c ≡ false → is_stopped args c ≡ false
unfolding is_stopped
spares_signals args (send_signal s a) e = absurd (cc e)
spares_signals args (send_group s a) e = absurd (cc e)
spares_signals args _ e = refl

module _ (h : Host) (f : Formats) (o : FirecrackerOrchestrator) where
  abbrev launching : M (Unit {0})
  launching =
      context (perform h (start (command o)))
        (lit "failed to start firecracker binary " ++ f.quote o.bin_path)

  Makes-launching : Makes (is_start (command o)) (is_stopped (command o)) launching
  unfolding held is_start is_stopped
  Makes-launching l a e = ground (arith, texts_eq_refl (command o))

  Makes-start_process : Makes (is_start (command o)) (is_stopped (command o)) (start_process h f o)
  unfolding start_process
  Makes-start_process =
      Makes-second (is_start (command o)) (is_stopped (command o))
        (ignore (perform h (remove o.socket_path))) (λ _. launching >> appearing h f o)
        (λ _.
          Makes-first (is_start (command o)) (is_stopped (command o)) launching
            (λ _. appearing h f o) Makes-launching
            (λ _.
              Grows-appearing (is_start (command o)) (is_stopped (command o))
                (spares_signals (command o)) h f o))

  module _ (makes frees : Call → Bool)
      (spares : (c : Call) → is_freer c ≡ false → frees c ≡ false) where
    Grows-launching : Grows makes frees launching
    Grows-launching =
        Grows-on_error makes frees (perform h (start (command o))) (pure tt)
          (lit "failed to start firecracker binary " ++ f.quote o.bin_path)
          (Grows-perform makes frees h (start (command o)) (spares (start (command o)) refl))

    Grows-start_process : Grows makes frees (start_process h f o)
    unfolding start_process held
    Grows-start_process =
        Grows-bind makes frees (ignore (perform h (remove o.socket_path)))
          (λ _. launching >> appearing h f o)
          (λ l a e k. ground (arith, spares (remove o.socket_path) refl))
          (λ _.
            Grows-bind makes frees launching (λ _. appearing h f o) Grows-launching
              (λ _. Grows-appearing makes frees spares h f o))

module _ (h : Host) (f : Formats) (env : Env) (bin kernel : Text) (m : LinuxNetworkManager)
    (id image : Text) (memory_mb : ℤ) where
  abbrev machine : FirecrackerOrchestrator
  machine = orchestrator h f env (driver h f env bin kernel m) id

  abbrev launching_on : ℕ → Text × Text → M ActiveVm
  launching_on = launch_on h f env (driver h f env bin kernel m) id image memory_mb

  module _ (makes frees : Call → Bool) (spares : (c : Call) → is_freer c ≡ false → frees c ≡ false)
      (started : ℕ) (tap : Text × Text) where
    Grows-booted :
        (o : FirecrackerOrchestrator)
        → Grows makes frees (booted h f env bin kernel m id image memory_mb started tap o)
    Grows-booted o =
        Grows-bind makes frees (boot h f env (driver h f env bin kernel m) id memory_mb tap o)
          (λ _. pure (active_vm h f env (driver h f env bin kernel m) id memory_mb started o))
          (Grows-boot makes frees spares h f env bin kernel m id memory_mb tap o) (λ _ l a e k. k)

    Grows-launch_on : Grows makes frees (launching_on started tap)
    unfolding launch_on linux_manager
    Grows-launch_on =
        Grows-bind makes frees (copied h f env bin kernel m id image memory_mb started tap)
          (λ _.
            spawned h f env bin kernel m id image memory_mb started tap
            >>= booted h f env bin kernel m id image memory_mb started tap)
          (Grows-on_error makes frees (copy_file h image (overlay_path env id))
            (ignore (release_tap h m id)) (lit "failed to allocate unique instance overlay disk")
            (Grows-copy_file makes frees spares h f image (overlay_path env id)))
          (λ _.
            Grows-bind makes frees (spawned h f env bin kernel m id image memory_mb started tap)
              (booted h f env bin kernel m id image memory_mb started tap)
              (Grows-on_error makes frees (start_process h f machine)
                (drop_files h f env (driver h f env bin kernel m) id)
                (lit "failed to start firecracker orchestrator process")
                (Grows-start_process h f machine makes frees spares))
              Grows-booted)

  abbrev p_makes : Call → Bool
  p_makes = is_start (command machine)

  abbrev p_frees : Call → Bool
  p_frees = is_stopped (command machine)

  Makes-launch_on :
      (started : ℕ) (tap : Text × Text) → Makes p_makes p_frees (launching_on started tap)
  unfolding launch_on linux_manager
  Makes-launch_on started tap =
      Makes-second p_makes p_frees (copied h f env bin kernel m id image memory_mb started tap)
        (λ _.
          spawned h f env bin kernel m id image memory_mb started tap
          >>= booted h f env bin kernel m id image memory_mb started tap)
        (λ _.
          Makes-first p_makes p_frees (spawned h f env bin kernel m id image memory_mb started tap)
            (booted h f env bin kernel m id image memory_mb started tap)
            (Makes-on_error p_makes p_frees (start_process h f machine)
              (drop_files h f env (driver h f env bin kernel m) id)
              (lit "failed to start firecracker orchestrator process")
              (Makes-start_process h f machine))
            (Grows-booted p_makes p_frees (spares_signals (command machine)) started tap))

  -- A launch makes a resource if its steps from the TAP device on do.
  Makes-launch :
      (makes frees : Call → Bool)
      → ((started : ℕ)
          → Makes makes frees
              (allocated h f env bin kernel m id image memory_mb >>= launching_on started))
      → Makes makes frees (launch_vm h f env (driver h f env bin kernel m) id image memory_mb)
  unfolding launch_vm linux_manager
  Makes-launch makes frees later =
      Makes-second makes frees (clock h)
        (λ started.
          bridged h f env bin kernel m id image memory_mb
          >> (allocated h f env bin kernel m id image memory_mb >>= launching_on started))
        (λ started.
          Makes-second makes frees (bridged h f env bin kernel m id image memory_mb)
            (λ _. allocated h f env bin kernel m id image memory_mb >>= launching_on started)
            (λ _. later started))

  abbrev t_makes : Call → Bool
  t_makes = is_run (tap_add (tap_name id))

  abbrev t_frees : Call → Bool
  t_frees = is_run (link_delete (tap_name id))

  Makes-allocated : Makes t_makes t_frees (allocated h f env bin kernel m id image memory_mb)
  unfolding tap_held
  Makes-allocated =
      Makes-on_error t_makes t_frees (allocate_tap h m env.sha256 id) (pure tt)
        (lit "failed to allocate host TAP interface")
        (λ l a e.
          (tap_held-allocate_tap_ok h m env.sha256 (tap_name id) id l e).0
          ∙ rw (eq_refl (tap_name id)) refl)

  -- If a launch by the Firecracker driver succeeds, the TAP device of the instance and its
  -- firecracker process are there: each was made and was not given back since.
  pub launch_vm-Started :
      (l : Log) (active : ActiveVm)
      → (launch_vm h f env (driver h f env bin kernel m) id image memory_mb l).0 ≡ ok active
      → let after = (launch_vm h f env (driver h f env bin kernel m) id image memory_mb l).1 in
        (tap_held (tap_name id) after ≡ true) × (process_held (command machine) after ≡ true)
  unfolding tap_held process_held
  launch_vm-Started l active e = (
    Makes-launch t_makes t_frees
        (λ started.
          Makes-first t_makes t_frees (allocated h f env bin kernel m id image memory_mb)
            (launching_on started) Makes-allocated
            (Grows-launch_on t_makes t_frees (spares_delete (link_delete (tap_name id))) started))
        l active e,
    Makes-launch p_makes p_frees
        (λ started.
          Makes-second p_makes p_frees (allocated h f env bin kernel m id image memory_mb)
            (launching_on started) (Makes-launch_on started))
        l active e,
  )
