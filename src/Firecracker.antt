-- ===== src/Firecracker.antt =====
-- pkg/firecracker/orchestrator.go: a firecracker process, driven by PUT requests over its socket.
-- json.Marshal, the quoting of %q and the printing of a decoded error response are parameters.
pub mod Process
pub mod Requests
use drover_runner.Base.{
  Text, ◌++◌, lit, ◌==◌, ℕ, zero, suc, nat_eq, decimal, List, [], ◌∷◌, Bool, true, false, ◌||◌,
  if◌then◌else◌, Option, none, some,
}
use drover_runner.Base.Int.{ℤ, pos}
use drover_runner.Host.{
  Host, M, pure, fail, context, ignore, or_else, perform, Result, ok, err, message, Log, remove,
  start, stat, sleep, send_signal, wait_exit, put, ◌>>=◌, ◌>>◌,
}

-- The values of the payloads.
pub data Value : Type 0 where
  str : Text → Value
  num : ℤ → Value
  bool : Bool → Value

abbrev pub Payload : Type 0
Payload = List (Text × Value)

pub record Formats : Type 0 where
  pub marshal : Payload → Result Text
  pub quote : Text → Text
  pub show_response : Text → Text

-- The process is there once Start has succeeded; it is known by its command.
pub record FirecrackerOrchestrator : Type 0 where
  pub socket_path : Text
  pub bin_path : Text
  pub process : Option (List Text)

unfoldable pub new_orchestrator : Text → Text → FirecrackerOrchestrator
new_orchestrator socket bin = record {
  socket_path = socket;
  bin_path = if bin == [] then lit "firecracker" else bin;
  process = none;
}

unfoldable pub command : FirecrackerOrchestrator → List Text
command o = o.bin_path ∷ lit "--api-sock" ∷ o.socket_path ∷ []

unfoldable pub machine_config : ℤ → ℤ → Payload
machine_config vcpus memory_mb =
    (lit "vcpu_count", num vcpus) ∷ (lit "mem_size_mib", num memory_mb) ∷ []

unfoldable pub boot_source : Text → Payload
boot_source kernel_path =
    (lit "kernel_image_path", str kernel_path)
    ∷ (lit "boot_args", str (lit "console=ttyS0 reboot=k panic=1 pci=off"))
    ∷ []

unfoldable pub root_drive : Text → Payload
root_drive rootfs_path =
    (lit "drive_id", str (lit "rootfs"))
    ∷ (lit "path_on_host", str rootfs_path)
    ∷ (lit "is_root_device", bool true)
    ∷ (lit "is_read_only", bool false)
    ∷ []

unfoldable pub network_config : Text → Text → Payload
network_config host_dev_name mac_addr =
    (lit "iface_id", str (lit "eth0"))
    ∷ (lit "host_dev_name", str host_dev_name)
    ∷ (lit "guest_mac", str mac_addr)
    ∷ []

module _ (h : Host) (f : Formats) where
  -- SIGTERM, and SIGKILL if the process is still there after a second.
  unfoldable pub stop_process : Text → Option (List Text) → M (Unit {0})
  stop_process socket none = pure tt
  stop_process socket (some args) =
      ignore (perform h (send_signal (lit "SIGTERM") args))
      >> (λ l.
          or_else (perform h (wait_exit 1000 args) l)
            (λ _. ignore (perform h (send_signal (lit "SIGKILL") args))))
      >> ignore (perform h (remove socket))

  unfoldable pub stop : FirecrackerOrchestrator → M (Unit {0})
  unfolding stop_process
  stop o = stop_process o.socket_path o.process

  -- The loop that waits for the socket: whether it appeared within the rounds.
  unfoldable pub await_socket : ℕ → Text → M Bool
  await_socket zero socket l = (ok false, l)
  await_socket (suc n) socket l =
      let asked = perform h (stat socket) l in
      let later = await_socket n socket (ignore (perform h (sleep 100)) asked.1).1 in
      elim asked.0 [ ok _ ↦ (ok true, asked.1) | err _ ↦ later ]

  unfoldable pub when_awaited : FirecrackerOrchestrator → Bool → M FirecrackerOrchestrator
  unfolding stop
  when_awaited o true = pure o
  when_awaited o false =
      ignore (stop o)
      >> fail (
          message (
            lit "timeout waiting for firecracker UDS API socket "
            ++ f.quote o.socket_path
            ++ lit " to start"))

  unfoldable pub start_process : FirecrackerOrchestrator → M FirecrackerOrchestrator
  unfolding when_awaited command
  start_process o = do
    ignore (perform h (remove o.socket_path))
    context (perform h (start (command o)))
        (lit "failed to start firecracker binary " ++ f.quote o.bin_path)
    appeared ← await_socket 20 o.socket_path
    when_awaited (record o { process = some (command o) }) appeared

  -- What is made of an HTTP response: its status and its body.
  unfoldable pub accept_status : ℕ → Text → M (Unit {0})
  accept_status status body =
      if nat_eq status 204 || nat_eq status 200
      then pure tt
      else fail (
          message
            (lit "bad status code: " ++ decimal status ++ lit ", error: " ++ f.show_response body))

  unfoldable pub send_put : Text → Text → Text → M (Unit {0})
  unfolding accept_status
  send_put socket path body l =
      let c = put socket path body in
      (context (perform h c) (lit "UDS request failed")
          >> accept_status (h.number l c) (h.bytes l c))
        l

  unfoldable pub put_json : FirecrackerOrchestrator → Text → Payload → M (Unit {0})
  unfolding send_put
  put_json o path payload =
      context (λ l. (f.marshal payload, l)) (lit "marshal JSON failed")
      >>= send_put o.socket_path path

  unfoldable pub configure : FirecrackerOrchestrator → Text → Text → ℤ → ℤ → M (Unit {0})
  unfolding machine_config boot_source root_drive
  configure o kernel_path rootfs_path vcpus memory_mb = do
    context (put_json o (lit "/machine-config") (machine_config vcpus memory_mb))
        (lit "machine config failed")
    context (put_json o (lit "/boot-source") (boot_source kernel_path))
        (lit "boot source config failed")
    context (put_json o (lit "/drives/rootfs") (root_drive rootfs_path)) (lit "drive config failed")

  unfoldable pub configure_network : FirecrackerOrchestrator → Text → Text → M (Unit {0})
  unfolding network_config
  configure_network o host_dev_name mac_addr =
      context (put_json o (lit "/network-interfaces/eth0") (network_config host_dev_name mac_addr))
        (lit "network interface config failed")

  unfoldable pub start_vm : FirecrackerOrchestrator → M (Unit {0})
  start_vm o =
      context (put_json o (lit "/actions") ((lit "action_type", str (lit "InstanceStart")) ∷ []))
        (lit "InstanceStart command failed")
