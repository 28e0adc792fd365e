-- ===== src/Daemon/Drivers/Firecracker/Resources.antt =====
-- What the steps of the Firecracker driver make on the host: most of them make nothing.
use drover_runner.Base.{
  Text, lit, ◌==◌, ℕ, zero, suc, Bool, false, Option, none, some, List, [], ◌∷◌, ◌≡◌, refl, arith,
}
use drover_runner.Base.Int.{ℤ}
use drover_runner.Host.{
  Host, Call, M, perform, ignore, context, pure, run, stat, sleep, put, remove, send_signal,
  wait_exit, ◌>>◌,
}
use drover_runner.Host.Ledger.{held}
use drover_runner.Host.Shrinks.{is_maker, Shrinks, Shrinks-perform, Shrinks-bind, Shrinks-on_error}
use drover_runner.Network.Linux.{
  LinuxNetworkManager, exec, setup_bridge, show_bridge, add_bridge, add_address, bridge_up,
  masquerade, forward_out, forward_back, isolate, delete_link, link_set, link_delete,
}
use drover_runner.Firecracker.{
  FirecrackerOrchestrator, Formats, Payload, str, machine_config, boot_source, root_drive,
  network_config, stop_process, await_socket, send_put, put_json, configure, configure_network,
  start_vm,
}

-- `ip tuntap`
unfoldable pub is_tuntap : List Text → Bool
is_tuntap (program ∷ object ∷ rest) = object == lit "tuntap"
is_tuntap _ = false

-- None of the commands of SetupBridge is `ip tuntap`.
module _ (m : LinuxNetworkManager) where
  not_tuntap_show : is_tuntap (show_bridge m) ≡ false
  unfolding is_tuntap show_bridge lit ◌==◌
  not_tuntap_show = refl

  not_tuntap_add : is_tuntap (add_bridge m) ≡ false
  unfolding is_tuntap add_bridge lit ◌==◌
  not_tuntap_add = refl

  not_tuntap_address : is_tuntap (add_address m) ≡ false
  unfolding is_tuntap add_address lit ◌==◌
  not_tuntap_address = refl

  not_tuntap_up : is_tuntap (bridge_up m) ≡ false
  unfolding is_tuntap bridge_up lit ◌==◌
  not_tuntap_up = refl

  not_tuntap_masquerade : (action : Text) → is_tuntap (masquerade m action) ≡ false
  unfolding is_tuntap masquerade lit ◌==◌
  not_tuntap_masquerade action = refl

  not_tuntap_rules :
      (action : Text)
      → (action == lit "tuntap") ≡ false
      → (is_tuntap (forward_out m action) ≡ false)
        × (is_tuntap (forward_back m action) ≡ false)
        × (is_tuntap (isolate m action) ≡ false)
  unfolding is_tuntap forward_out forward_back isolate
  not_tuntap_rules action e = (e, e, e)

not_tuntap_delete : (lit "-D" == lit "tuntap") ≡ false
unfolding lit ◌==◌
not_tuntap_delete = refl

not_tuntap_append : (lit "-A" == lit "tuntap") ≡ false
unfolding lit ◌==◌
not_tuntap_append = refl

-- A resource that only a start, a create or an `ip tuntap` can make.
pub record IsMade (makes : Call → Bool) : Type 0 where
  pub idle : (c : Call) → is_maker c ≡ false → makes c ≡ false
  pub runs : (a : List Text) → is_tuntap a ≡ false → makes (run a) ≡ false

module _ (makes frees : Call → Bool) (q : IsMade makes) (h : Host) where
  abbrev pub Keeps : {A : Type 0} → M A → Type 0
  Keeps = Shrinks makes frees

  Keeps-quiet : (c : Call) → is_maker c ≡ false → Keeps (perform h c)
  Keeps-quiet c e = Shrinks-perform makes frees h c (q.idle c e)

  Keeps-exec : (a : List Text) → is_tuntap a ≡ false → Keeps (exec h a)
  Keeps-exec a e = Shrinks-perform makes frees h (run a) (q.runs a e)

  pub Keeps-delete_link : (tap : Text) → Keeps (delete_link h tap)
  unfolding delete_link is_tuntap lit ◌==◌
  Keeps-delete_link tap l k =
      Keeps-exec (link_set (lit "down") tap) refl l (Keeps-exec (link_delete tap) refl _ k)

  pub Keeps-setup_bridge : (m : LinuxNetworkManager) → Keeps (setup_bridge h m)
  unfolding setup_bridge held
  Keeps-setup_bridge m l k = ground (
    arith,
    q.runs (show_bridge m) (not_tuntap_show m),
    q.runs (add_bridge m) (not_tuntap_add m),
    q.runs (add_address m) (not_tuntap_address m),
    q.runs (bridge_up m) (not_tuntap_up m),
    q.runs (masquerade m (lit "-D")) (not_tuntap_masquerade m (lit "-D")),
    q.runs (masquerade m (lit "-A")) (not_tuntap_masquerade m (lit "-A")),
    q.runs (forward_out m (lit "-D")) (not_tuntap_rules m (lit "-D") not_tuntap_delete).0,
    q.runs (forward_out m (lit "-A")) (not_tuntap_rules m (lit "-A") not_tuntap_append).0,
    q.runs (forward_back m (lit "-D")) (not_tuntap_rules m (lit "-D") not_tuntap_delete).1,
    q.runs (forward_back m (lit "-A")) (not_tuntap_rules m (lit "-A") not_tuntap_append).1,
    q.runs (isolate m (lit "-D")) (not_tuntap_rules m (lit "-D") not_tuntap_delete).2,
    q.runs (isolate m (lit "-A")) (not_tuntap_rules m (lit "-A") not_tuntap_append).2,
  )

  pub Keeps-await_socket : (f : Formats) (n : ℕ) (socket : Text) → Keeps (await_socket h f n socket)
  unfolding await_socket held
  Keeps-await_socket f zero socket l k = k
  Keeps-await_socket f (suc n) socket l k = ground (
    arith,
    Keeps-await_socket f n socket (ignore (perform h (sleep 100)) (perform h (stat socket) l).1).1,
    q.idle (stat socket) refl,
    q.idle (sleep 100) refl,
  )

  pub Keeps-stop_process :
      (f : Formats) (socket : Text) (process : Option (List Text))
      → Keeps (stop_process h f socket process)
  unfolding stop_process held
  Keeps-stop_process f socket none l k = k
  Keeps-stop_process f socket (some args) l k = ground (
    arith,
    q.idle (send_signal (lit "SIGTERM") args) refl,
    q.idle (wait_exit 1000 args) refl,
    q.idle (send_signal (lit "SIGKILL") args) refl,
    q.idle (remove socket) refl,
  )

  Keeps-send_put : (f : Formats) (socket path body : Text) → Keeps (send_put h f socket path body)
  unfolding send_put held
  Keeps-send_put f socket path body l k = ground (arith, q.idle (put socket path body) refl)

  pub Keeps-context : {A : Type 0} (m : M A) (t : Text) → Keeps m → Keeps (context m t)
  Keeps-context m t s = Shrinks-on_error makes frees m (pure tt) t s (λ l k. k)

  Keeps-then : {A B : Type 0} (m : M A) (k : M B) → Keeps m → Keeps k → Keeps (m >> k)
  Keeps-then m k s t = Shrinks-bind makes frees m (λ _. k) s (λ _. t)

  Keeps-put_json :
      (f : Formats) (o : FirecrackerOrchestrator) (path : Text) (payload : Payload)
      → Keeps (put_json h f o path payload)
  unfolding put_json
  Keeps-put_json f o path payload =
      Shrinks-bind makes frees (context (λ l. (f.marshal payload, l)) (lit "marshal JSON failed"))
        (send_put h f o.socket_path path)
        (Keeps-context (λ l. (f.marshal payload, l)) (lit "marshal JSON failed") (λ l k. k))
        (Keeps-send_put f o.socket_path path)

  module _ (f : Formats) (o : FirecrackerOrchestrator) where
    abbrev request : Text → Payload → Text → M (Unit {0})
    request path payload t = context (put_json h f o path payload) t

    Keeps-request : (path : Text) (payload : Payload) (t : Text) → Keeps (request path payload t)
    Keeps-request path payload t =
        Keeps-context (put_json h f o path payload) t (Keeps-put_json f o path payload)

    pub Keeps-configure :
        (kernel rootfs : Text) (vcpus memory_mb : ℤ)
        → Keeps (configure h f o kernel rootfs vcpus memory_mb)
    unfolding configure
    Keeps-configure kernel rootfs vcpus memory_mb =
        let machine : M (Unit {0}) =
          request (lit "/machine-config") (machine_config vcpus memory_mb)
            (lit "machine config failed") in
        let source : M (Unit {0}) =
          request (lit "/boot-source") (boot_source kernel) (lit "boot source config failed") in
        let drive : M (Unit {0}) =
          request (lit "/drives/rootfs") (root_drive rootfs) (lit "drive config failed") in
        Keeps-then machine (source >> drive)
          (Keeps-request (lit "/machine-config") (machine_config vcpus memory_mb)
            (lit "machine config failed"))
          (Keeps-then source drive
            (Keeps-request (lit "/boot-source") (boot_source kernel)
              (lit "boot source config failed"))
            (Keeps-request (lit "/drives/rootfs") (root_drive rootfs) (lit "drive config failed")))

    pub Keeps-configure_network : (tap mac : Text) → Keeps (configure_network h f o tap mac)
    unfolding configure_network
    Keeps-configure_network tap mac =
        Keeps-request (lit "/network-interfaces/eth0") (network_config tap mac)
          (lit "network interface config failed")

    pub Keeps-start_vm : Keeps (start_vm h f o)
    unfolding start_vm
    Keeps-start_vm =
        Keeps-request (lit "/actions") ((lit "action_type", str (lit "InstanceStart")) ∷ [])
          (lit "InstanceStart command failed")
