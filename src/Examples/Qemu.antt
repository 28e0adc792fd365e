-- ===== src/Examples/Qemu.antt =====
-- The QEMU driver where a file cannot be written or opened, and where a guest does not exit.
use drover_runner.Base.{Text, lit, ◌==◌, [], ◌∷◌, Bool, true, false, none, some, ◌≡◌, refl, List}
use drover_runner.Base.Int.{pos}
use drover_runner.Host.{Host, Call, Event, wrap, ok, open_write, wait_exit, write_file}
use drover_runner.Storage.{shred_file}
use drover_runner.Storage.Handles.{handle_held, shred_file-handle_held}
use drover_runner.Kraft.{new_kraft}
use drover_runner.Kraft.Launcher.{stop_process}
use drover_runner.Kraft.Launcher.Stop.{Ended, stop_process-Ended}
use drover_runner.Daemon.Drivers.Qemu.{launch_vm, overlay_path}
use drover_runner.Daemon.Drivers.Qemu.Overlay.{Undone, launch_vm-Undone}
use drover_runner.Examples.Hosts.{host_with, broken, checksum, env}

abbrev guest : List Text
guest = lit "kraft" ∷ lit "run" ∷ []

abbrev is_exit : Call → Bool
is_exit (wait_exit ms args) = true
is_exit _ = false

-- A guest that does not exit in time.
abbrev stubborn : Host
stubborn = host_with is_exit

stop_process-Ended_example :
    ((stop_process stubborn (some guest) []).0 ≡ ok tt)
    × Ended stubborn guest [] (stop_process stubborn (some guest) []).1
stop_process-Ended_example = stop_process-Ended stubborn guest []

abbrev id : Text
id = lit "inst-1"

abbrev is_written : Call → Bool
is_written (write_file path content) = true
is_written _ = false

-- A host that writes no file.
abbrev no_space : Host
no_space = host_with is_written

launch_vm-Undone_example :
    Undone no_space env new_kraft id
      (lit "img")
      (pos 64)
      []
      (launch_vm no_space env new_kraft id (lit "img") (pos 64) []).1
unfolding launch_vm ◌==◌ lit overlay_path
launch_vm-Undone_example =
    launch_vm-Undone no_space env new_kraft id (lit "img") (pos 64) []
      (wrap (lit "failed to allocate mock overlay disk") broken) refl

abbrev is_open : Call → Bool
is_open (open_write path) = true
is_open _ = false

-- A host that opens no file for writing.
abbrev read_only : Host
read_only = host_with is_open

abbrev open_event : Event
open_event = record { call = open_write (lit "overlay"); fault = none }

shred_file-handle_held_example : handle_held (lit "overlay") (open_event ∷ []) ≡ true
unfolding handle_held shred_file ◌==◌ lit
shred_file-handle_held_example =
    shred_file-handle_held read_only (lit "overlay") checksum (open_event ∷ []) refl
