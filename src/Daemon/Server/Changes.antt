-- ===== src/Daemon/Server/Changes.antt =====
-- How a request can change the server.
use drover_runner.Base.{
  Text, lit, ◌==◌, some, ◌≡◌, ◌⊎◌, refl, arith, Bool-cases, Option-cases, inl, inr,
}
use drover_runner.Host.{Log, ok, err, Error, Result}
use drover_runner.Daemon.Ids.{instance_id, next_seq}
use drover_runner.Daemon.Types.{HypervisorDriver, ActiveVm, VmConfig}
use drover_runner.Daemon.Writer.{Writer}
use drover_runner.Daemon.Server.Auth.{ready}
use drover_runner.Daemon.Server.Routing.{Routed, route-Routed}
use drover_runner.Daemon.Table.{load, store, delete}
use drover_runner.Daemon.Server.{
  Codec, Request, Server, is_refused, route, serve_http, handle_create_instance,
  handle_get_instance, handle_delete_instance, handle_get_instance_logs, serve_instance, serve_logs,
  bare, created, stopped,
}

module _ (driver : HypervisorDriver) where
  -- The ways in which one request can change the server: not at all; a number is used up by a
  -- launch that failed; a guest that was launched is added under its new id; an instance of the
  -- table, which has stopped, is removed.
  abbrev pub Change : Server → Server → Type 0
  Change s t =
      (t ≡ s)
      ⊎ ((c : VmConfig) × (l : Log) × (e : Error) × (l' : Log) × (driver.launch_vm
              (instance_id (next_seq s.vm_seq)) c.image_name c.memory_mb c.env l
            ≡ (err e, l'))
          × (t ≡ record s { vm_seq = next_seq s.vm_seq }))
      ⊎ ((c : VmConfig) × (l : Log) × (a : ActiveVm) × (l' : Log) × (driver.launch_vm
              (instance_id (next_seq s.vm_seq)) c.image_name c.memory_mb c.env l
            ≡ (ok a, l'))
          × (t ≡ record {
            vms = store (instance_id (next_seq s.vm_seq)) a s.vms;
            vm_seq = next_seq s.vm_seq;
          }))
      ⊎ ((id : Text) × (a : ActiveVm) × (l : Log) × (l' : Log) × (load id s.vms ≡ some a)
          × (a.stop l ≡ (ok tt, l'))
          × (t ≡ record s { vms = delete id s.vms }))

  module _ (json : Codec) (s : Server) (w : Writer) (l : Log) where
    created-Change :
        (c : VmConfig) (p : Result ActiveVm × Log)
        → driver.launch_vm (instance_id (next_seq s.vm_seq)) c.image_name c.memory_mb c.env l ≡ p
        → Change s
            (created json driver
              (instance_id (next_seq s.vm_seq))
              (record s { vm_seq = next_seq s.vm_seq })
              w
              p).server
    unfolding created
    created-Change c (ok a, l') e = inr (inr (inl (c, l, a, l', e, refl)))
    created-Change c (err cause, l') e = inr (inl (c, l, cause, l', e, refl))

    handle_create-Change :
        (r : Request) → Change s (handle_create_instance json driver r s w l).server
    unfolding handle_create_instance
    handle_create-Change r = elim (Option-cases (json.decode_config r.body)) [
      | inl bad ↦ rw (handle_create_instance, bad) (inl refl)
      | inr (c, good) ↦ rw (handle_create_instance, good) (created-Change c _ refl)
    ]

    stopped-Change :
        (id : Text) (a : ActiveVm) (p : Result (Unit {0}) × Log)
        → load id s.vms ≡ some a
        → a.stop l ≡ p
        → Change s (stopped json driver id s w p).server
    unfolding stopped
    stopped-Change id a (ok u, l') found e = inr (inr (inr (id, a, l, l', found, e, refl)))
    stopped-Change id a (err cause, l') found e = inl refl

    handle_delete-Change :
        (id : Text) → Change s (handle_delete_instance json driver id s w l).server
    unfolding handle_delete_instance
    handle_delete-Change id = elim (Option-cases (load id s.vms)) [
      | inl missing ↦ rw (handle_delete_instance, missing) (inl refl)
      | inr (a, found) ↦
          rw (handle_delete_instance, found) (stopped-Change id a (a.stop l) found refl)
    ]

    handle_get-server : (id : Text) → (handle_get_instance json driver id s w l).server ≡ s
    unfolding handle_get_instance
    handle_get-server id = ground arith

    handle_logs-server : (id : Text) → (handle_get_instance_logs json driver id s w l).server ≡ s
    unfolding handle_get_instance_logs
    handle_logs-server id = ground arith

    serve_instance-Change :
        (id method : Text) → Change s (serve_instance json driver id method s w l).server
    unfolding serve_instance
    serve_instance-Change id method = elim (Bool-cases (method == lit "GET")) [
      | inl get ↦ rw (serve_instance, get) (inl (handle_get-server id))
      | inr other ↦ elim (Bool-cases (method == lit "DELETE")) [
        | inl del ↦ rw (serve_instance, other, del) (handle_delete-Change id)
        | inr neither ↦ rw (serve_instance, other, neither) (inl refl)
      ]
    ]

    serve_logs-server : (id method : Text) → (serve_logs json driver id method s w l).server ≡ s
    unfolding serve_logs
    serve_logs-server id method = ground (arith, handle_logs-server id)

    route-Change : (r : Request) → Change s (route json driver r s w l).server
    route-Change r = by_route (route-Routed json driver s w l r)
      where
        by_route : Routed json driver s w l r → Change s (route json driver r s w l).server
        by_route (inl (path, e)) = elim (Bool-cases (r.method == lit "POST")) [
          | inl post ↦ rw (e, post) (handle_create-Change r)
          | inr other ↦ rw (e, other) (inl (unfold bare in refl))
        ]
        by_route (inr (inl (id, segment, path, e))) = rw e (serve_instance-Change id r.method)
        by_route (inr (inr (inl (id, segment, path, e)))) =
            rw e (inl (serve_logs-server id r.method))
        by_route (inr (inr (inr (far, elsewhere, e)))) = rw e (inl (unfold bare in refl))

  -- Serving any request is one of these changes, whatever it holds.
  pub serve_http-Change :
      (json : Codec) (token : Text) (r : Request) (s : Server) (l : Log)
      → Change s (serve_http json driver token r s l).server
  unfolding serve_http
  serve_http-Change json token r s l = elim (Bool-cases (is_refused token r)) [
    | inl refused ↦ rw (serve_http, refused) (inl refl)
    | inr admitted ↦ rw (serve_http, admitted) (route-Change json s ready l r)
  ]
