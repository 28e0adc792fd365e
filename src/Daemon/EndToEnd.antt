-- ===== src/Daemon/EndToEnd.antt =====
-- The REST server over the Firecracker driver: what a request to create an instance does to the
-- host.
pub mod Delete
pub mod Cycle
pub mod Qemu
use drover_runner.Base.{
  Text, lit, Bool, true, false, Bool-cases, some, [], ◌∷◌, ◌≡◌, ◌⊎◌, refl, ap, inl, inr,
}
use drover_runner.Host.{Host, Log, Error, error_text, Result-cases}
use drover_runner.Network.{tap_name}
use drover_runner.Network.Linux.{LinuxNetworkManager}
use drover_runner.Network.Allocation.{tap_held}
use drover_runner.Firecracker.{Formats, command}
use drover_runner.Firecracker.Process.{process_held}
use drover_runner.Daemon.Ids.{instance_id, next_seq}
use drover_runner.Daemon.Types.{ActiveVm, HypervisorDriver, VmConfig}
use drover_runner.Daemon.Table.{store}
use drover_runner.Daemon.Drivers.{Env}
use drover_runner.Daemon.Drivers.Firecracker.{
  FirecrackerDriver, orchestrator, launch_vm, firecracker_driver,
}
use drover_runner.Daemon.Drivers.Firecracker.Launch.{driver}
use drover_runner.Daemon.Drivers.Firecracker.Started.{launch_vm-Started}
use drover_runner.Daemon.Drivers.Firecracker.Launched.{Launched, launch_vm-Launched}
use drover_runner.Daemon.Drivers.Firecracker.Failure.{launch_vm-tap_held}
use drover_runner.Daemon.Drivers.Firecracker.Processes.{launch_vm-process_held}
use drover_runner.Daemon.Server.{Codec, Request, Server, Served, serve_http, instance_of}
use drover_runner.Daemon.Server.Routing.{collection_path}
use drover_runner.Daemon.Server.Lifecycle.{
  IsAdmitted, response, serve_http-create_ok, serve_http-create_failed,
}

-- A resource is gone, or it was there before.
abbrev pub IsLeft : (Log → Bool) → Log → Log → Type 0
IsLeft held l l' = (held l' ≡ false) ⊎ (held l ≡ true)

IsLeft-of : (held : Log → Bool) (l l' : Log) → (held l' ≡ true → held l ≡ true) → IsLeft held l l'
IsLeft-of held l l' back = elim (Bool-cases (held l')) [
  | inl there ↦ inr (back there)
  | inr gone ↦ inl gone
]

module _ (h : Host) (f : Formats) (env : Env) (bin kernel : Text) (m : LinuxNetworkManager) where
  abbrev pub fc : FirecrackerDriver
  fc = driver h f env bin kernel m

  abbrev pub service : HypervisorDriver
  service = firecracker_driver h f env fc

  module _ (json : Codec) (token : Text) where
    abbrev pub next_id : Server → Text
    next_id s = instance_id (next_seq s.vm_seq)

    -- A launched guest: its instance, with the firecracker process that was started, is in the
    -- table and in the answer, and its TAP device and process are there.
    abbrev pub Created : VmConfig → Server → Served → Type 0
    Created c s v =
        (active : ActiveVm) × Launched h f env bin kernel m (next_id s) c.image_name c.memory_mb
          active
        × (v.server ≡ record { vms = store (next_id s) active s.vms; vm_seq = next_seq s.vm_seq })
        × (v.writer ≡ response 201 (json.encode_instance (instance_of active)))
        × (tap_held (tap_name (next_id s)) v.log ≡ true)
        × (process_held (command (orchestrator h f env fc (next_id s))) v.log ≡ true)

    -- A launch that failed: the answer is an error, and the table is as it was, and the device
    -- and the process of the id are not there anew.
    abbrev pub NotCreated : Server → Log → Served → Type 0
    NotCreated s l v =
        (e : Error) × (v.server ≡ record s { vm_seq = next_seq s.vm_seq })
        × (v.writer ≡ response 500 (json.encode_map ((lit "error", error_text e) ∷ [])))
        × IsLeft (tap_held (tap_name (next_id s))) l v.log
        × IsLeft (process_held (command (orchestrator h f env fc (next_id s)))) l v.log

    -- Over the Firecracker driver, a POST with a configuration that decodes either is answered with
    -- 201, the table holds its instance, whose Stop knows the firecracker process that was started,
    -- and the TAP device and the process of the new id are there; or it is answered with 500, the
    -- table is as it was, and the device and the process are there only if they were there before. A
    -- device is there from the call that made it to the next call to delete it, whether that succeeds
    -- or not, and a process from its start to the next signal.
    pub serve_http-create_firecracker :
        (r : Request) (c : VmConfig) (s : Server) (l : Log)
        → IsAdmitted token r
        → r.path ≡ collection_path
        → r.method ≡ lit "POST"
        → json.decode_config r.body ≡ some c
        → Created c s (serve_http json service token r s l)
          ⊎ NotCreated s l (serve_http json service token r s l)
    unfolding firecracker_driver
    serve_http-create_firecracker r c s l admitted path method decoded =
        let launch = launch_vm h f env fc (next_id s) c.image_name c.memory_mb l in
        elim (Result-cases launch.0) [
          | inl (active, good) ↦
              let started =
                launch_vm-Started h f env bin kernel m (next_id s) c.image_name c.memory_mb l active
                  good in
              rw
                (serve_http-create_ok json service token r c s l launch.1 active admitted path
                  method decoded (ap (λ q. (q, launch.1)) good))
                (inl (
                  active,
                  launch_vm-Launched h f env bin kernel m (next_id s) c.image_name c.memory_mb l
                      active good,
                  refl,
                  refl,
                  started.0,
                  started.1,
                ))
          | inr (e, failed) ↦
              rw
                (serve_http-create_failed json service token r c s l launch.1 e admitted path method
                  decoded (ap (λ q. (q, launch.1)) failed))
                (inr (
                  e,
                  refl,
                  refl,
                  IsLeft-of (tap_held (tap_name (next_id s))) l launch.1 (
                      launch_vm-tap_held h f env bin kernel m (next_id s) c.image_name c.memory_mb l
                        e failed),
                  IsLeft-of (process_held (command (orchestrator h f env fc (next_id s)))) l
                      launch.1
                      (launch_vm-process_held h f env bin kernel m (next_id s) c.image_name
                        c.memory_mb l e failed),
                ))
        ]
