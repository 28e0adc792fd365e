-- ===== src/Daemon/Drivers/Firecracker/Launch.antt =====
-- A launch that fails gives back what it took: the TAP device and the process.
use drover_runner.Base.{
  Text, lit, ◌==◌, eq_iff, eq_refl, ℕ, Bool, false, List, [], ◌∷◌, ◌≡◌, refl, arith,
}
use drover_runner.Base.Int.{ℤ, pos}
use drover_runner.Host.{
  Host, Call, M, perform, ignore, on_error, pure, run, start, remove, ◌>>=◌, ◌>>◌,
}
use drover_runner.Host.Ledger.{held, is_run, is_start}
use drover_runner.Host.Shrinks.{
  is_maker, Clears, FailClears, FailClears-bind, FailClears-on_error, Clears-then,
}
use drover_runner.Network.{tap_name}
use drover_runner.Network.Linux.{
  LinuxNetworkManager, linux_manager, tap_add, link_delete, release_tap,
}
use drover_runner.Firecracker.{
  FirecrackerOrchestrator, Formats, stop, start_process, configure, configure_network, start_vm,
}
use drover_runner.Daemon.Types.{ActiveVm}
use drover_runner.Daemon.Drivers.{Env, copy_file}
use drover_runner.Daemon.Drivers.Firecracker.{
  FirecrackerDriver, overlay_path, orchestrator, drop_files, drop_vm, boot, launch_on, active_vm,
}
use drover_runner.Daemon.Drivers.Firecracker.Resources.{IsMade, is_tuntap}

not_tuntap : (t : Text) (a : List Text) → is_tuntap a ≡ false → is_run (tap_add t) (run a) ≡ false
unfolding is_run is_tuntap
not_tuntap t [] e = refl
not_tuntap t (program ∷ []) e = ground arith
not_tuntap t (program ∷ object ∷ rest) e =
    ground (arith, eq_iff object (lit "tuntap"), eq_iff (lit "tuntap") object)

pub idle_run : (args : List Text) (c : Call) → is_maker c ≡ false → is_run args c ≡ false
unfolding is_run
idle_run args (run a) e = cc
idle_run args _ e = refl

idle_start : (args : List Text) (c : Call) → is_maker c ≡ false → is_start args c ≡ false
unfolding is_start
idle_start args (start a) e = cc
idle_start args _ e = refl

-- The TAP device `t`, and the process of a command, as resources.
pub tap-IsMade : (t : Text) → IsMade (is_run (tap_add t))
tap-IsMade t = record { idle = idle_run (tap_add t); runs = not_tuntap t }

pub process-IsMade : (args : List Text) → IsMade (is_start args)
unfolding is_start
process-IsMade args = record { idle = idle_start args; runs = λ a e. refl }

module _ (h : Host) (f : Formats) (env : Env) (bin kernel : Text) (m : LinuxNetworkManager) where
  -- The driver over the Linux network manager.
  abbrev pub driver : FirecrackerDriver
  driver = record { bin_path = bin; kernel_path = kernel; net_mgr = linux_manager h env.sha256 m }

  module _ (id : Text) where
    abbrev pub makes_tap : Call → Bool
    makes_tap = is_run (tap_add (tap_name id))

    abbrev pub frees_tap : Call → Bool
    frees_tap = is_run (link_delete (tap_name id))

    Clears-release : Clears makes_tap frees_tap (ignore (release_tap h m id))
    unfolding release_tap held is_run lit ◌==◌
    Clears-release l = ground (arith, eq_refl (tap_name id))

    Clears-drop_files : Clears makes_tap frees_tap (drop_files h f env driver id)
    unfolding drop_files linux_manager
    Clears-drop_files =
        Clears-then makes_tap frees_tap (perform h (remove (overlay_path env id)))
          (ignore (release_tap h m id)) Clears-release

    Clears-drop_vm :
        (o : FirecrackerOrchestrator) → Clears makes_tap frees_tap (drop_vm h f env driver id o)
    unfolding drop_vm
    Clears-drop_vm o =
        Clears-then makes_tap frees_tap (stop h f o) (drop_files h f env driver id)
          Clears-drop_files

    -- Steps 5 to 7, and what a failure of one undoes.
    module _ (memory_mb : ℤ) (tap : Text × Text) (o : FirecrackerOrchestrator) where
      abbrev configured : M (Unit {0})
      configured = configure h f o kernel (overlay_path env id) (pos 1) memory_mb

      abbrev networked : M (Unit {0})
      networked = configure_network h f o tap.0 tap.1

      abbrev guarded : M (Unit {0}) → Text → M (Unit {0})
      guarded step t = on_error step (drop_vm h f env driver id o) t

      abbrev configured_text : Text
      configured_text = lit "failed to configure firecracker VM over UDS"

      abbrev networked_text : Text
      networked_text = lit "failed to configure firecracker VM network over UDS"

      abbrev started_text : Text
      started_text = lit "failed to boot firecracker VM"

      module _ (makes frees : Call → Bool) where
        module _ (c : Clears makes frees (drop_vm h f env driver id o)) where
          FailClears-guarded :
              (step : M (Unit {0})) (t : Text) → FailClears makes frees (guarded step t)
          FailClears-guarded step t =
              FailClears-on_error makes frees step (drop_vm h f env driver id o) t c

          FailClears-boot : FailClears makes frees (boot h f env driver id memory_mb tap o)
          unfolding boot
          FailClears-boot =
              FailClears-bind makes frees (guarded configured configured_text)
                (λ _. guarded networked networked_text >> guarded (start_vm h f o) started_text)
                (FailClears-guarded configured configured_text)
                (λ _.
                  FailClears-bind makes frees (guarded networked networked_text)
                    (λ _. guarded (start_vm h f o) started_text)
                    (FailClears-guarded networked networked_text)
                    (λ _. FailClears-guarded (start_vm h f o) started_text))

    -- Steps 3 to 7.
    module _ (image : Text) (memory_mb : ℤ) (started : ℕ) (tap : Text × Text) where
      abbrev pub copied : M (Unit {0})
      copied =
          on_error (copy_file h image (overlay_path env id)) (ignore (release_tap h m id))
            (lit "failed to allocate unique instance overlay disk")

      abbrev pub spawned : M FirecrackerOrchestrator
      spawned =
          on_error (start_process h f (orchestrator h f env driver id))
            (drop_files h f env driver id) (lit "failed to start firecracker orchestrator process")

      abbrev pub booted : FirecrackerOrchestrator → M ActiveVm
      booted o =
          boot h f env driver id memory_mb tap o
          >> pure (active_vm h f env driver id memory_mb started o)

      module _ (makes frees : Call → Bool) (o : FirecrackerOrchestrator) where
        pub FailClears-booted :
            Clears makes frees (drop_vm h f env driver id o) → FailClears makes frees (booted o)
        FailClears-booted c =
            FailClears-bind makes frees (boot h f env driver id memory_mb tap o)
              (λ _. pure (active_vm h f env driver id memory_mb started o))
              (FailClears-boot memory_mb tap o makes frees c) (λ _ l e impossible. cc)

      pub FailClears-tap-launch_on :
          FailClears makes_tap frees_tap (launch_on h f env driver id image memory_mb started tap)
      unfolding launch_on linux_manager
      FailClears-tap-launch_on =
          FailClears-bind makes_tap frees_tap copied (λ _. spawned >>= booted)
            (FailClears-on_error makes_tap frees_tap (copy_file h image (overlay_path env id))
              (ignore (release_tap h m id)) (lit "failed to allocate unique instance overlay disk")
              Clears-release)
            (λ _.
              FailClears-bind makes_tap frees_tap spawned booted
                (FailClears-on_error makes_tap frees_tap
                  (start_process h f (orchestrator h f env driver id))
                  (drop_files h f env driver id)
                  (lit "failed to start firecracker orchestrator process") Clears-drop_files)
                (λ o. FailClears-booted makes_tap frees_tap o (Clears-drop_vm o)))
