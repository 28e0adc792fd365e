-- ===== src/Daemon/Drivers/Firecracker/Overlay.antt =====
-- The overlay disk of a launch whose copy fails.
use drover_runner.Base.{Text, lit, eq_refl, ℕ, Bool, true, false, none, ◌∷◌, ◌≡◌, arith}
use drover_runner.Base.Int.{ℤ}
use drover_runner.Host.{Host, Log, err, Error, create, open_read, wrap}
use drover_runner.Host.Ledger.{held, is_create, is_remove}
use drover_runner.Network.Linux.{LinuxNetworkManager, linux_manager, release_tap}
use drover_runner.Firecracker.{Formats}
use drover_runner.Daemon.Drivers.{Env, copy_file}
use drover_runner.Daemon.Drivers.Firecracker.{overlay_path, launch_on}
use drover_runner.Daemon.Drivers.Firecracker.Launch.{driver}
use drover_runner.Daemon.Drivers.Firecracker.Teardown.{tap_held-release}
use drover_runner.Network.{tap_name}
use drover_runner.Network.Allocation.{tap_held}

-- The file was created and was not removed since.
unfoldable pub file_held : Text → Log → Bool
unfolding held is_create is_remove
file_held path = held (is_create path) (is_remove path)

-- A copy that has created its target leaves it there, also if it fails.
pub copy_file-file_held :
    (h : Host) (src dst : Text) (l : Log)
    → h.fault l (open_read src) ≡ none
    → h.fault (record { call = open_read src; fault = none } ∷ l) (create dst) ≡ none
    → file_held dst (copy_file h src dst l).1 ≡ true
unfolding copy_file file_held
copy_file-file_held h src dst l opened created = ground (arith, eq_refl dst)

file_held-release :
    (h : Host) (m : LinuxNetworkManager) (id path : Text) (l : Log)
    → file_held path (release_tap h m id l).1 ≡ file_held path l
unfolding release_tap file_held
file_held-release h m id path l = ground arith

module _ (h : Host) (f : Formats) (env : Env) (bin kernel : Text) (m : LinuxNetworkManager)
    (id image : Text) (memory_mb : ℤ) (started : ℕ) (tap : Text × Text) where
  -- A launch whose copy of the image fails after the overlay was created fails: the TAP device
  -- was asked to be deleted since it was made, and the overlay was not removed since.
  pub launch_on-overlay_left :
      (l : Log) (e : Error)
      → h.fault l (open_read image) ≡ none
      → h.fault (record { call = open_read image; fault = none } ∷ l) (create (overlay_path env id))
        ≡ none
      → (copy_file h image (overlay_path env id) l).0 ≡ err e
      → let after =
          launch_on h f env (driver h f env bin kernel m) id image memory_mb started tap l in
        (after.0 ≡ err (wrap (lit "failed to allocate unique instance overlay disk") e))
        × (file_held (overlay_path env id) after.1 ≡ true)
        × (tap_held (tap_name id) after.1 ≡ false)
  unfolding launch_on linux_manager
  launch_on-overlay_left l e opened created failed = ground (
    arith,
    copy_file-file_held h image (overlay_path env id) l opened created,
    file_held-release h m id (overlay_path env id) (copy_file h image (overlay_path env id) l).1,
    tap_held-release h m id (copy_file h image (overlay_path env id) l).1,
  )
