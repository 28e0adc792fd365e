-- ===== src/Daemon/Drivers/Firecracker/Teardown.antt =====
-- What Stop of an instance leaves on the host.
use drover_runner.Host.{◌>>=◌, attempt, Host, Log, and_then, M, Result, ok}
use drover_runner.Daemon.Drivers.Firecracker.{first_error, overlay_path, stop_vm}
use drover_runner.Base.{Text, eq_refl, ℕ, Bool, false, ◌≡◌, ◌∙◌}
use drover_runner.Base.Int.{ℤ}
use drover_runner.Network.{tap_name}
use drover_runner.Network.Linux.{LinuxNetworkManager, linux_manager, release_tap}
use drover_runner.Network.Allocation.{tap_held, tap_held-delete_link}
use drover_runner.Firecracker.{FirecrackerOrchestrator, Formats, stop}
use drover_runner.Daemon.Drivers.{Env, audit_shred}
use drover_runner.Daemon.Drivers.Audits.{audit_shred-ok}
use drover_runner.Daemon.Drivers.Firecracker.Launch.{driver}
use drover_runner.Storage.{shred_file}

-- Behind a computation that does not fail comes what follows it.
and_then-reaches :
    (test : Log → Bool) (p : Result (Unit {0}) × Log) (k : M (Unit {0}))
    → p.0 ≡ ok tt
    → ((l : Log) → test (k l).1 ≡ false)
    → test (and_then p (λ _. k)).1 ≡ false
and_then-reaches test p k is_ok after = rw is_ok (after p.1)

-- The deletion comes last.
pub tap_held-release :
    (h : Host) (m : LinuxNetworkManager) (id : Text) (l : Log)
    → tap_held (tap_name id) (release_tap h m id l).1 ≡ false
unfolding release_tap
tap_held-release h m id l =
    tap_held-delete_link h (tap_name id) (tap_name id) l ∙ rw (eq_refl (tap_name id))

module _ (h : Host) (f : Formats) (env : Env) (bin kernel : Text) (m : LinuxNetworkManager)
    (id : Text) (memory_mb : ℤ) (started : ℕ) (o : FirecrackerOrchestrator) where
  -- Stop gives back the TAP device of the instance, whatever fails before.
  pub stop_vm-tap_held :
      (l : Log)
      → tap_held
          (tap_name id)
          (stop_vm h f env (driver h f env bin kernel m) id memory_mb started o l).1
        ≡ false
  unfolding stop_vm linux_manager
  stop_vm-tap_held l =
      let stopped = stop h f o l in
      let shredded = shred_file h env.sha256 (overlay_path env id) stopped.1 in
      and_then-reaches (tap_held (tap_name id))
        (audit_shred h env id memory_mb (overlay_path env id) started shredded.0 shredded.1)
        (attempt (release_tap h m id) >>= λ released l'. (first_error stopped.0 released, l'))
        (audit_shred-ok h env id (overlay_path env id) memory_mb started shredded.0 shredded.1)
        (tap_held-release h m id)
