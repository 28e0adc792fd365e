-- ===== src/Examples/EndToEnd.antt =====
-- The server over the Firecracker driver, on a host that has no firecracker, and with a disk.
use drover_runner.Base.{Text, lit, some, ◌∷◌, [], ◌⊎◌, refl}
use drover_runner.Base.Int.{pos}
use drover_runner.Daemon.Server.{Server, Served, Request, serve_http, new_server}
use drover_runner.Daemon.Types.{ActiveVm}
use drover_runner.Daemon.Ids.{instance_id, next_seq}
use drover_runner.Daemon.Drivers.Firecracker.{overlay_path}
use drover_runner.Daemon.Server.Routing.{instance_path}
use drover_runner.Daemon.EndToEnd.Delete.{instance}
use drover_runner.Firecracker.{FirecrackerOrchestrator}
use drover_runner.Examples.Storage.{disk, disk_host, disk_host-IsDisk}
use drover_runner.Daemon.EndToEnd.Qemu.{entry}
use drover_runner.Kraft.{new_kraft}
use drover_runner.Kraft.Launcher.{SliceInstance}
use drover_runner.Daemon.EndToEnd.{service, Created, NotCreated, serve_http-create_firecracker}
use drover_runner.Examples.Hosts.{no_binary, formats, env, bridge}
use drover_runner.Examples.Server.{json, token, request_of, post, post-IsAdmitted, server_with}
use drover_runner.Daemon.Drivers.Qemu

serve_http-create_firecracker_example :
    let s = service no_binary formats env (lit "firecracker") (lit "vmlinux") bridge in
    let v = serve_http json s token post new_server [] in
    Created no_binary formats env
      (lit "firecracker")
      (lit "vmlinux")
      bridge
      json
      token
      (record { image_name = lit "img"; memory_mb = pos 64; env = [] })
      new_server
      v
    ⊎ NotCreated no_binary formats env
        (lit "firecracker")
        (lit "vmlinux")
        bridge
        json
        token
        new_server
        []
        v
unfolding lit
serve_http-create_firecracker_example =
    serve_http-create_firecracker no_binary formats env (lit "firecracker") (lit "vmlinux") bridge
      json token post (record { image_name = lit "img"; memory_mb = pos 64; env = [] }) new_server
      [] post-IsAdmitted refl refl refl

abbrev machine : FirecrackerOrchestrator
machine = record {
  socket_path = lit "inst-1.socket";
  bin_path = lit "firecracker";
  process = some (lit "firecracker" ∷ []);
}

abbrev machine_entry : ActiveVm
machine_entry =
    instance disk_host formats env (lit "firecracker") (lit "vmlinux") bridge (instance_id 1)
      (pos 64) 0 machine

abbrev serving : Server
serving = server_with machine_entry

abbrev delete_new : Request
delete_new = request_of (lit "DELETE") (instance_path (instance_id (next_seq 0))) []

abbrev empty : Server
empty = record { vms = []; vm_seq = 0 }

abbrev created : Served
created =
    serve_http json (service disk_host formats env (lit "firecracker") (lit "vmlinux") bridge) token
      post empty []

abbrev slice : SliceInstance
slice = record { id = lit "slice-7"; process = some (lit "kraft" ∷ []) }

abbrev qemu_overlay : Text
qemu_overlay = Qemu.overlay_path env (instance_id 1)

abbrev qemu_entry : ActiveVm
qemu_entry =
    entry disk_host env new_kraft json token (instance_id 1) (pos 64) 0 (lit "kraft" ∷ []) slice
      disk (disk_host-IsDisk qemu_overlay)
