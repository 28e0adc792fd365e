-- ===== src/Daemon/Server/Concurrent/Serial.antt =====
-- The handlers as they are written make the moves of the tasks: a request that is served alone is
-- one of the interleavings.
use drover_runner.Base.{
  Text, lit, ◌==◌, ℕ, suc, Bool-cases, ◌≢◌, ◌⊎◌, sym, ◌∙◌, subst, Option-cases, some, ◌≡◌, refl, ap,
  inl, inr,
}
use drover_runner.Host.{Log, Result, ok, err}
use drover_runner.Daemon.Ids.{instance_id, next_seq}
use drover_runner.Daemon.Types.{HypervisorDriver, ActiveVm, VmConfig}
use drover_runner.Daemon.Table.{load}
use drover_runner.Daemon.Writer.{Writer}
use drover_runner.Daemon.Server.{
  Codec, Request, Server, Served, is_refused, serve_http, route, created, stopped,
  handle_create_instance, handle_get_instance, handle_delete_instance, handle_get_instance_logs,
  sent_logs, serve_instance, serve_logs, bare,
}
use drover_runner.Daemon.Server.Auth.{ready}
use drover_runner.Daemon.Server.Routing.{Routed, route-Routed}
use drover_runner.Daemon.Server.Concurrent.{
  Task, idle, reading, Move, reserve, launched, launch_failed, stored, loaded, stop_succeeded,
  stop_failed, removed, looked_up, logs_read, System, update, update-at, update-other, pick, Run,
  here, step,
}

-- A request is being served.
abbrev pub IsBusy : Task → Type 0
IsBusy idle = ⊥
IsBusy _ = Unit

module _ (driver : HypervisorDriver) where
  -- The accesses of one task up to the first that ends its request: behind each of the others the
  -- task is busy, and the next access is its own, on the server and the host as it left them.
  pub data Work : Server → Log → Task → Server → Log → Type 0 where
    finish :
        {s : Server} {l : Log} {t : Task} {s' : Server} {l' : Log}
        → Move driver s l t s' l' idle
        → Work s l t s' l'
    proceed :
        {s : Server} {l : Log} {t : Task} {u : Server} {k : Log} {b : Task} {s' : Server} {l' : Log}
        → Move driver s l t u k b
        → IsBusy b
        → Work u k b s' l'
        → Work s l t s' l'

  -- One request of an idle task leads from a server and a host to others: it changes nothing, or
  -- its accesses lead there.
  abbrev pub Leads : Server → Log → Server → Log → Type 0
  Leads s l s' l' = ((s' ≡ s) × (l' ≡ l)) ⊎ Work s l idle s' l'

  -- The system comes to the server and the host, with every task but this one as it was, and this
  -- one idle.
  abbrev pub Comes : System → ℕ → Server → Log → Type 0
  Comes x i s' l' =
      (n : ℕ) × (y : System) × Run driver x n y
      × (y.server ≡ s')
      × (y.log ≡ l')
      × (y.tasks i ≡ idle)
      × ((j : ℕ) → i ≢ j → y.tasks j ≡ x.tasks j)

  Work-Comes :
      (x : System) (i n : ℕ) (tasks : ℕ → Task) {s : Server} {l : Log} {t : Task} {s' : Server}
      {l' : Log}
      → Work s l t s' l'
      → Run driver x n (record { server = s; log = l; tasks = tasks })
      → tasks i ≡ t
      → ((j : ℕ) → i ≢ j → tasks j ≡ x.tasks j)
      → Comes x i s' l'
  Work-Comes x i n tasks (finish m) r now others = (
    suc n,
    _,
    step r (pick i now m),
    refl,
    refl,
    update-at tasks i idle,
    λ j apart. update-other tasks i j idle apart ∙ others j apart,
  )
  Work-Comes x i n tasks (proceed {b} m busy rest) r now others =
      Work-Comes x i (suc n) (update tasks i b) rest (step r (pick i now m)) (update-at tasks i b)
        (λ j apart. update-other tasks i j b apart ∙ others j apart)

  -- What one request of an idle task leads to, the system comes to.
  Leads-Comes :
      (x : System) (i : ℕ) {s' : Server} {l' : Log}
      → x.tasks i ≡ idle
      → Leads x.server x.log s' l'
      → Comes x i s' l'
  Leads-Comes x i now (inl (same, quiet)) = (0, x, here, sym same, sym quiet, now, λ j apart. refl)
  Leads-Comes x i now (inr work) = Work-Comes x i 0 x.tasks work here now (λ j apart. refl)

  module _ (json : Codec) (s : Server) (w : Writer) (l : Log) where
    -- What a request leaves.
    abbrev Serves : Served → Type 0
    Serves v = Leads s l v.server v.log

    unchanged : Leads s l s l
    unchanged = inl (refl, refl)

    created-Serves :
        (c : VmConfig) (p : Result ActiveVm × Log)
        → driver.launch_vm (instance_id (next_seq s.vm_seq)) c.image_name c.memory_mb c.env l ≡ p
        → Serves (
            created json driver
              (instance_id (next_seq s.vm_seq))
              (record s { vm_seq = next_seq s.vm_seq })
              w
              p)
    unfolding created
    created-Serves c (ok a, l') e =
        inr (proceed (reserve c) tt (proceed (launched e) tt (finish stored)))
    created-Serves c (err cause, l') e = inr (proceed (reserve c) tt (finish (launch_failed e)))

    handle_create-Serves : (r : Request) → Serves (handle_create_instance json driver r s w l)
    unfolding handle_create_instance
    handle_create-Serves r = elim (Option-cases (json.decode_config r.body)) [
      | inl bad ↦ rw (handle_create_instance, bad) (unchanged)
      | inr (c, good) ↦ rw (handle_create_instance, good) (created-Serves c _ refl)
    ]

    stopped-Serves :
        (id : Text) (a : ActiveVm) (p : Result (Unit {0}) × Log)
        → load id s.vms ≡ some a
        → a.stop l ≡ p
        → Serves (stopped json driver id s w p)
    unfolding stopped
    stopped-Serves id a (ok u, l') found e =
        inr (proceed (loaded found) tt (proceed (stop_succeeded e) tt (finish removed)))
    stopped-Serves id a (err cause, l') found e =
        inr (proceed (loaded found) tt (finish (stop_failed e)))

    handle_delete-Serves : (id : Text) → Serves (handle_delete_instance json driver id s w l)
    unfolding handle_delete_instance
    handle_delete-Serves id = elim (Option-cases (load id s.vms)) [
      | inl missing ↦ rw (handle_delete_instance, missing) (unchanged)
      | inr (a, found) ↦
          rw (handle_delete_instance, found) (stopped-Serves id a (a.stop l) found refl)
    ]

    handle_get-Serves : (id : Text) → Serves (handle_get_instance json driver id s w l)
    unfolding handle_get_instance
    handle_get-Serves id = elim (Option-cases (load id s.vms)) [
      | inl missing ↦ rw (handle_get_instance, missing) unchanged
      | inr (a, found) ↦ rw (handle_get_instance, found) unchanged
    ]

    sent_logs-Serves :
        (id : Text) (a : ActiveVm) (p : Result Text × Log)
        → load id s.vms ≡ some a
        → a.logs l ≡ p
        → Serves (sent_logs json driver s w p)
    unfolding sent_logs
    sent_logs-Serves id a (ok logs, l') found e = inr (
        proceed (looked_up found) tt (
          finish
            (subst (λ k. Move driver s l (reading id a) s k idle) (ap (λ p. p.1) e) logs_read)))
    sent_logs-Serves id a (err cause, l') found e = inr (
        proceed (looked_up found) tt (
          finish
            (subst (λ k. Move driver s l (reading id a) s k idle) (ap (λ p. p.1) e) logs_read)))

    handle_logs-Serves : (id : Text) → Serves (handle_get_instance_logs json driver id s w l)
    unfolding handle_get_instance_logs
    handle_logs-Serves id = elim (Option-cases (load id s.vms)) [
      | inl missing ↦ rw (handle_get_instance_logs, missing) unchanged
      | inr (a, found) ↦
          rw (handle_get_instance_logs, found) (sent_logs-Serves id a (a.logs l) found refl)
    ]

    serve_instance-Serves : (id method : Text) → Serves (serve_instance json driver id method s w l)
    unfolding serve_instance
    serve_instance-Serves id method = elim (Bool-cases (method == lit "GET")) [
      | inl get ↦ rw (serve_instance, get) (handle_get-Serves id)
      | inr other ↦ elim (Bool-cases (method == lit "DELETE")) [
        | inl del ↦ rw (serve_instance, other, del) (handle_delete-Serves id)
        | inr neither ↦ rw (serve_instance, other, neither) unchanged
      ]
    ]

    serve_logs-Serves : (id method : Text) → Serves (serve_logs json driver id method s w l)
    unfolding serve_logs
    serve_logs-Serves id method = elim (Bool-cases (method == lit "GET")) [
      | inl get ↦ rw (serve_logs, get) (handle_logs-Serves id)
      | inr other ↦ rw (serve_logs, other) unchanged
    ]

    route-Serves : (r : Request) → Serves (route json driver r s w l)
    route-Serves r = by_route (route-Routed json driver s w l r)
      where
        by_route : Routed json driver s w l r → Serves (route json driver r s w l)
        by_route (inl (path, e)) = elim (Bool-cases (r.method == lit "POST")) [
          | inl post ↦ rw (e, post) (handle_create-Serves r)
          | inr other ↦ rw (e, other) (unfold bare in unchanged)
        ]
        by_route (inr (inl (id, segment, path, e))) = rw e (serve_instance-Serves id r.method)
        by_route (inr (inr (inl (id, segment, path, e)))) = rw e (serve_logs-Serves id r.method)
        by_route (inr (inr (inr (far, elsewhere, e)))) = rw e (unfold bare in unchanged)

  -- What ServeHTTP leaves of the server and the host.
  serve_http-Serves :
      (json : Codec) (token : Text) (r : Request) (s : Server) (l : Log)
      → Leads s l
          (serve_http json driver token r s l).server
          (serve_http json driver token r s l).log
  unfolding serve_http
  serve_http-Serves json token r s l = elim (Bool-cases (is_refused token r)) [
    | inl refused ↦ rw (serve_http, refused) (unchanged json s ready l)
    | inr admitted ↦ rw (serve_http, admitted) (route-Serves json s ready l r)
  ]

  -- A request that is served while the other tasks wait, by a task that is idle: the server and the
  -- host that ServeHTTP leaves are those that there were, or those to which the accesses of one task
  -- lead, from idle to the first access behind which it is idle again; and the concurrent server
  -- comes to them by moves, with that task idle and every other task as it was.
  pub serve_http-Leads :
      (json : Codec) (token : Text) (r : Request) (x : System) (i : ℕ)
      → x.tasks i ≡ idle
      → let v = serve_http json driver token r x.server x.log in
        Leads x.server x.log v.server v.log × Comes x i v.server v.log
  serve_http-Leads json token r x i now =
      let leads = serve_http-Serves json token r x.server x.log in
      (leads, Leads-Comes x i now leads)
