-- ===== src/Daemon/Drivers/Firecracker/Failure.antt =====
-- A launch that fails gives back what it took: the TAP device and the process.
use drover_runner.Base.{Text, lit, ℕ, Bool, true, none, ◌≡◌, refl}
use drover_runner.Base.Int.{ℤ}
use drover_runner.Host.{Host, Log, Call, M, err, Error, context, pure, ◌>>=◌, ◌>>◌, now}
use drover_runner.Host.Ledger.{is_run}
use drover_runner.Host.Shrinks.{
  Shrinks, FailShrinks, Shrinks-event, FailShrinks-bind, FailShrinks-made, FailShrinks-on_error,
}
use drover_runner.Network.{tap_name}
use drover_runner.Network.Linux.{
  LinuxNetworkManager, linux_manager, tap_add, link_delete, allocate_tap, setup_bridge,
}
use drover_runner.Network.Allocation.{tap_held, tap_held-allocate_tap_err}
use drover_runner.Firecracker.{Formats}
use drover_runner.Storage.{clock}
use drover_runner.Daemon.Drivers.{Env}
use drover_runner.Daemon.Drivers.Firecracker.{FirecrackerDriver, launch_on, launch_vm}
use drover_runner.Daemon.Drivers.Firecracker.Launch.{tap-IsMade, driver, FailClears-tap-launch_on}
use drover_runner.Daemon.Drivers.Firecracker.Resources.{IsMade, Keeps-context, Keeps-setup_bridge}

module _ (h : Host) (f : Formats) (env : Env) (bin kernel : Text) (m : LinuxNetworkManager)
    (id image : Text) (memory_mb : ℤ) where
  abbrev pub fc : FirecrackerDriver
  fc = driver h f env bin kernel m

  -- The steps up to the TAP device.
  abbrev pub bridged : M (Unit {0})
  bridged = context (setup_bridge h m) (lit "failed to setup host network bridge")

  abbrev pub allocated : M (Text × Text)
  allocated = context (allocate_tap h m env.sha256 id) (lit "failed to allocate host TAP interface")

  module _ (makes frees : Call → Bool) (q : IsMade makes) where
    Keeps-clock : Shrinks makes frees (clock h)
    Keeps-clock l k = Shrinks-event makes frees now none l (q.idle now refl) k

    -- A launch leaves nothing behind if its steps from the TAP device on do.
    pub FailShrinks-launch :
        ((started : ℕ)
          → FailShrinks makes frees (allocated >>= launch_on h f env fc id image memory_mb started))
        → FailShrinks makes frees (launch_vm h f env fc id image memory_mb)
    unfolding launch_vm linux_manager
    FailShrinks-launch later =
        FailShrinks-bind makes frees (clock h)
          (λ started. bridged >> (allocated >>= launch_on h f env fc id image memory_mb started))
          Keeps-clock
          (λ started.
            FailShrinks-bind makes frees bridged
              (λ _. allocated >>= launch_on h f env fc id image memory_mb started)
              (Keeps-context makes frees q h (setup_bridge h m)
                (lit "failed to setup host network bridge") (Keeps-setup_bridge makes frees q h m))
              (λ _. later started))

  abbrev tap_makes : Call → Bool
  tap_makes = is_run (tap_add (tap_name id))

  abbrev tap_frees : Call → Bool
  tap_frees = is_run (link_delete (tap_name id))

  FailShrinks-tap-allocated : FailShrinks tap_makes tap_frees allocated
  unfolding tap_held
  FailShrinks-tap-allocated =
      FailShrinks-on_error tap_makes tap_frees (allocate_tap h m env.sha256 id) (pure tt)
        (lit "failed to allocate host TAP interface")
        (λ l e failed k. tap_held-allocate_tap_err h m env.sha256 (tap_name id) id l failed k)
        (λ l k. k)

  -- If a launch fails, the TAP device of the instance is there only if it was there before; a
  -- call to delete it counts, whether it succeeds or not.
  pub launch_vm-tap_held :
      (l : Log) (e : Error)
      → (launch_vm h f env fc id image memory_mb l).0 ≡ err e
      → tap_held (tap_name id) (launch_vm h f env fc id image memory_mb l).1 ≡ true
      → tap_held (tap_name id) l ≡ true
  unfolding tap_held
  launch_vm-tap_held = FailShrinks-launch tap_makes tap_frees (tap-IsMade (tap_name id)) (λ started.
      FailShrinks-made tap_makes tap_frees allocated
        (launch_on h f env fc id image memory_mb started) FailShrinks-tap-allocated
        (λ tap. FailClears-tap-launch_on h f env bin kernel m id image memory_mb started tap))
