-- ===== src/Daemon/Server/Concurrent/Twice.antt =====
-- Two requests to delete one instance.
use drover_runner.Base.{Text, ℕ, some, ◌≡◌, ◌≢◌, refl, sym, ◌∙◌}
use drover_runner.Host.{Log, Result, ok, err}
use drover_runner.Daemon.Types.{HypervisorDriver, ActiveVm}
use drover_runner.Daemon.Table.{load}
use drover_runner.Daemon.Server.Concurrent.{
  Task, idle, stopping, removing, loaded, stop_succeeded, stop_failed, System, update, update-at,
  update-other, Step, pick, Run, here, step,
}

module _ (driver : HypervisorDriver) where
  -- The end of a Stop, whatever it returns.
  stop-Move :
      (x : System) (i : ℕ) (id : Text) (a : ActiveVm) (r : Result (Unit {0})) (l : Log)
      → x.tasks i ≡ stopping id a
      → a.stop x.log ≡ (r, l)
      → (t : Task) × Step driver x
          (record { server = x.server; log = l; tasks = update x.tasks i t })
  stop-Move x i id a (ok tt) l e q = (removing id, pick i e (stop_succeeded q))
  stop-Move x i id a (err cause) l e q = (idle, pick i e (stop_failed q))

  -- Two DELETE requests for an instance of the table that are served at the same time can both be
  -- behind Load before either has called Stop; then both call it, the second one on the host as the
  -- first one left it.
  pub stop_twice :
      (x : System) (i j : ℕ) (id : Text) (a : ActiveVm) (l m : Log) (r : Result (Unit {0}))
      → i ≢ j
      → x.tasks i ≡ idle
      → x.tasks j ≡ idle
      → load id x.server.vms ≡ some a
      → a.stop x.log ≡ (ok tt, l)
      → a.stop l ≡ (r, m)
      → (y : System) × Run driver x 2 y
        × (y.tasks i ≡ stopping id a)
        × (y.tasks j ≡ stopping id a)
        × (z : System) × Run driver y 2 z
        × (z.log ≡ m)
  stop_twice x i j id a l m r apart first second found p q =
      let both : ℕ → Task = update (update x.tasks i (stopping id a)) j (stopping id a) in
      let at_j : update x.tasks i (stopping id a) j ≡ idle =
        update-other x.tasks i j (stopping id a) apart ∙ second in
      let at_i : both i ≡ stopping id a =
        update-other (update x.tasks i (stopping id a)) j i (stopping id a) (λ e. apart (sym e))
        ∙ update-at x.tasks i (stopping id a) in
      let now_j : both j ≡ stopping id a =
        update-at (update x.tasks i (stopping id a)) j (stopping id a) in
      let still_j : update both i (removing id) j ≡ stopping id a =
        update-other both i j (removing id) apart ∙ now_j in
      let stopped : System = record {
        server = x.server;
        log = l;
        tasks = update both i (removing id);
      } in
      let (t, last) = stop-Move stopped j id a r m still_j q in
      (
        _,
        step (step here (pick i first (loaded found))) (pick j at_j (loaded found)),
        at_i,
        now_j,
        _,
        step (step here (pick i at_i (stop_succeeded p))) last,
        refl,
      )
