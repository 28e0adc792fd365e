-- ===== src/Daemon/EndToEnd/Qemu.antt =====
-- The REST server over the QEMU driver: what a request to delete an instance does.
use drover_runner.Base.{Text, ℕ, List, Option}
use drover_runner.Base.Int.{ℤ}
use drover_runner.Host.{Host, Log, Result}
use drover_runner.Storage.{shred_file, ShredRecord}
use drover_runner.Storage.Zeroing.{IsDisk}
use drover_runner.Kraft.{Kraft}
use drover_runner.Kraft.Launcher.{SliceInstance, stop_slice}
use drover_runner.Daemon.Types.{ActiveVm}
use drover_runner.Daemon.Drivers.{Env, audit_shred}
use drover_runner.Daemon.Drivers.Qemu.{overlay_path, active_vm, stop_vm, qemu_driver}
use drover_runner.Daemon.Server.{Codec, Request, Server, Served, serve_http}

module _ (h : Host) (env : Env) (id : Text) (memory_mb : ℤ) (started : ℕ) (slice : SliceInstance)
    (l : Log) where
  abbrev stopping : Result (Unit {0}) × Log
  stopping = stop_vm h env id memory_mb started slice l

  abbrev shredding : Result (Option ShredRecord) × Log
  shredding = shred_file h env.sha256 (overlay_path env id) (stop_slice h slice l).1

  abbrev auditing : Result (Unit {0}) × Log
  auditing = audit_shred h env id memory_mb (overlay_path env id) started shredding.0 shredding.1

module _ (h : Host) (env : Env) (k : Kraft) (json : Codec) (token id : Text) (memory_mb : ℤ)
    (started : ℕ) (args : List Text) (slice : SliceInstance) (disk : Log → Text)
    (d : IsDisk h (overlay_path env id) disk) where
  -- The entry of an instance that the driver launched.
  abbrev pub entry : ActiveVm
  entry = active_vm h env id memory_mb started args slice

  abbrev deleting : Request → Server → Log → Served
  deleting r s l = serve_http json (qemu_driver h env k) token r s l
