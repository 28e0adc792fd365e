-- ===== src/Daemon/Drivers/Firecracker/Running.antt =====
-- Which steps of a launch that succeed leave what was there.
use drover_runner.Base.{Text, lit, ℕ, zero, suc, Bool, true, false, some, ◌≡◌, refl, arith}
use drover_runner.Base.Int.{ℤ, pos}
use drover_runner.Host.{
  Host, Call, M, pure, perform, ignore, context, stat, sleep, put, on_error, open_read, create,
  copy_into, sync, close, ◌>>=◌, ◌>>◌,
}
use drover_runner.Host.Ledger.{held}
use drover_runner.Host.Grows.{Grows, is_freer, Grows-bind, Grows-on_error}
use drover_runner.Network.Linux.{LinuxNetworkManager}
use drover_runner.Firecracker.{
  FirecrackerOrchestrator, Formats, Payload, machine_config, boot_source, root_drive, command,
  await_socket, when_awaited, send_put, put_json, configure, configure_network, start_vm,
}
use drover_runner.Daemon.Drivers.{Env, copy_file}
use drover_runner.Daemon.Drivers.Firecracker.{drop_vm, boot, overlay_path}
use drover_runner.Daemon.Drivers.Firecracker.Launch.{driver}

module _ (h : Host) (f : Formats) where
  -- Waiting for the socket, from the start of the process on.
  abbrev pub appearing : FirecrackerOrchestrator → M FirecrackerOrchestrator
  appearing o =
      await_socket h f 20 o.socket_path
      >>= when_awaited h f (record o { process = some (command o) })

module _ (makes frees : Call → Bool) (spares : (c : Call) → is_freer c ≡ false → frees c ≡ false)
    (h : Host) (f : Formats) where
  pub Grows-copy_file : (src dst : Text) → Grows makes frees (copy_file h src dst)
  unfolding copy_file held
  Grows-copy_file src dst l a e k = ground (
    arith,
    spares (open_read src) refl,
    spares (create dst) refl,
    spares (copy_into src dst) refl,
    spares (sync dst) refl,
    spares (close src) refl,
    spares (close dst) refl,
  )

  Grows-await_socket : (n : ℕ) (socket : Text) → Grows makes frees (await_socket h f n socket)
  unfolding await_socket held
  Grows-await_socket zero socket l a e k = k
  Grows-await_socket (suc n) socket l a e k = ground (
    arith,
    Grows-await_socket n socket (ignore (perform h (sleep 100)) (perform h (stat socket) l).1).1 a,
    spares (stat socket) refl,
    spares (sleep 100) refl,
  )

  Grows-awaited :
      (o : FirecrackerOrchestrator) (appeared : Bool)
      → Grows makes frees (when_awaited h f o appeared)
  unfolding when_awaited
  Grows-awaited o true l a e k = k
  Grows-awaited o false l a e k = absurd (cc e)

  Grows-context :
      {A : Type 0} (m : M A) (t : Text) → Grows makes frees m → Grows makes frees (context m t)
  Grows-context m t = Grows-on_error makes frees m (pure tt) t

  Grows-then :
      {A B : Type 0} (m : M A) (k : M B)
      → Grows makes frees m
      → Grows makes frees k
      → Grows makes frees (m >> k)
  Grows-then m k s t = Grows-bind makes frees m (λ _. k) s (λ _. t)

  Grows-send_put : (socket path body : Text) → Grows makes frees (send_put h f socket path body)
  unfolding send_put held
  Grows-send_put socket path body l a e k = ground (arith, spares (put socket path body) refl)

  -- A request of the orchestrator, in its context.
  Grows-request :
      (o : FirecrackerOrchestrator) (path : Text) (payload : Payload) (t : Text)
      → Grows makes frees (context (put_json h f o path payload) t)
  unfolding put_json
  Grows-request o path payload t = Grows-context (put_json h f o path payload) t (
      Grows-bind makes frees (context (λ l. (f.marshal payload, l)) (lit "marshal JSON failed"))
        (send_put h f o.socket_path path)
        (Grows-context (λ l. (f.marshal payload, l)) (lit "marshal JSON failed") (λ l a e k. k))
        (Grows-send_put o.socket_path path))

  Grows-configure :
      (o : FirecrackerOrchestrator) (kernel rootfs : Text) (vcpus memory_mb : ℤ)
      → Grows makes frees (configure h f o kernel rootfs vcpus memory_mb)
  unfolding configure
  Grows-configure o kernel rootfs vcpus memory_mb =
      let machine =
        context (put_json h f o (lit "/machine-config") (machine_config vcpus memory_mb))
          (lit "machine config failed") in
      let source =
        context (put_json h f o (lit "/boot-source") (boot_source kernel))
          (lit "boot source config failed") in
      let drive =
        context (put_json h f o (lit "/drives/rootfs") (root_drive rootfs))
          (lit "drive config failed") in
      Grows-then machine (source >> drive) (Grows-request o _ _ _)
        (Grows-then source drive (Grows-request o _ _ _) (Grows-request o _ _ _))

  module _ (env : Env) (bin kernel : Text) (m : LinuxNetworkManager) (id : Text) (memory_mb : ℤ)
      (tap : Text × Text) where
    abbrev drop : FirecrackerOrchestrator → M (Unit {0})
    drop = drop_vm h f env (driver h f env bin kernel m) id

    pub Grows-boot :
        (o : FirecrackerOrchestrator)
        → Grows makes frees (boot h f env (driver h f env bin kernel m) id memory_mb tap o)
    unfolding boot configure_network start_vm
    Grows-boot o =
        let configured =
          on_error (configure h f o kernel (overlay_path env id) (pos 1) memory_mb) (drop o)
            (lit "failed to configure firecracker VM over UDS") in
        let networked =
          on_error (configure_network h f o tap.0 tap.1) (drop o)
            (lit "failed to configure firecracker VM network over UDS") in
        let booted = on_error (start_vm h f o) (drop o) (lit "failed to boot firecracker VM") in
        Grows-then configured (networked >> booted)
          (Grows-on_error makes frees
            (configure h f o kernel (overlay_path env id) (pos 1) memory_mb) (drop o)
            (lit "failed to configure firecracker VM over UDS")
            (Grows-configure o kernel (overlay_path env id) (pos 1) memory_mb))
          (Grows-then networked booted
            (Grows-on_error makes frees (configure_network h f o tap.0 tap.1) (drop o)
              (lit "failed to configure firecracker VM network over UDS") (Grows-request o _ _ _))
            (Grows-on_error makes frees (start_vm h f o) (drop o)
              (lit "failed to boot firecracker VM") (Grows-request o _ _ _)))

  pub Grows-appearing : (o : FirecrackerOrchestrator) → Grows makes frees (appearing h f o)
  Grows-appearing o =
      Grows-bind makes frees (await_socket h f 20 o.socket_path)
        (when_awaited h f (record o { process = some (command o) }))
        (Grows-await_socket 20 o.socket_path)
        (Grows-awaited (record o { process = some (command o) }))
