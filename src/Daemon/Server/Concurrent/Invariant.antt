-- ===== src/Daemon/Server/Concurrent/Invariant.antt =====
-- What holds of requests in any interleaving.
use drover_runner.Base.{
  Text, eq_iff, ℕ, ◌+◌, ◌≤◌, ◌<◌, ◌^◌, nat_eq, nat_eq_iff, Bool-cases, none, ◌≡◌, ◌≢◌, ◌⊎◌, refl,
  ap, sym, ◌∙◌, subst, arith, inl, inr,
}
use drover_runner.Host.{Log}
use drover_runner.Daemon.Ids.{instance_id, next_seq}
use drover_runner.Daemon.Types.{HypervisorDriver, ActiveVm, VmConfig}
use drover_runner.Daemon.Table.{
  load, store, delete, load-store, load-delete, store-AllKeys, store-NodupKeys, delete-AllKeys,
  delete-NodupKeys,
}
use drover_runner.Daemon.Server.{Server, new_server}
use drover_runner.Daemon.Server.Invariant.{
  IsIssued, IsWellFormed, HasRoom, next_seq_of_HasRoom, IsIssued-mono, IsIssued-ne_next,
  IsIssued-next, next_id-free, new_server-IsWellFormed,
}
use drover_runner.Daemon.Server.Concurrent.{
  Task, idle, launching, storing, stopping, removing, reading, sweeping, Move, reserve, launched,
  launch_failed, stored, loaded, stop_succeeded, stop_failed, removed, swept, sweep_stopped,
  looked_up, logs_read, System, update, Step, pick, Run, here, step, initial,
}

-- The task creates the instance with this id.
abbrev pub Creates : Task → Text → Type 0
Creates (launching id c) j = id ≡ j
Creates (storing id a) j = id ≡ j
Creates _ j = ⊥

-- The table is well formed; the id of an instance that is being created was issued and is not in
-- the table, and no other task creates an instance with it.
pub record IsConsistent (s : Server) (tasks : ℕ → Task) : Type 0 where
  pub formed : IsWellFormed s
  pub fresh :
      (i : ℕ) (id : Text) → Creates (tasks i) id → IsIssued s.vm_seq id × (load id s.vms ≡ none)
  pub unique : (i j : ℕ) (id : Text) → Creates (tasks i) id → Creates (tasks j) id → i ≡ j

-- Behind an update, a task that creates an instance is the new one, or another that was there.
Creates-update :
    (tasks : ℕ → Task) (i : ℕ) (t : Task) (id : Text) (j : ℕ)
    → Creates (update tasks i t j) id
    → ((i ≡ j) × Creates t id) ⊎ ((i ≢ j) × Creates (tasks j) id)
unfolding update
Creates-update tasks i t id j c = elim (Bool-cases (nat_eq i j)) [
  | inl same ↦ inl ((nat_eq_iff i j).0 same, rw (update, same) at c)
  | inr other ↦ inr (λ e. cc (other, (nat_eq_iff i j).1 e), rw (update, other) at c)
]

module _ (s : Server) (tasks : ℕ → Task) (i : ℕ) (v : IsConsistent s tasks) where
  -- The server stays, and the task creates nothing new.
  IsConsistent-quiet :
      (t : Task)
      → ((id : Text) → Creates t id → Creates (tasks i) id)
      → IsConsistent s (update tasks i t)
  IsConsistent-quiet t keeps = record {
    formed = v.formed;
    fresh = λ j id c. v.fresh j id (before j id c);
    unique = λ j k id c d. v.unique j k id (before j id c) (before k id d);
  }
    where
      before : (j : ℕ) (id : Text) → Creates (update tasks i t j) id → Creates (tasks j) id
      before j id c = elim (Creates-update tasks i t id j c) [
        | inl (e, new) ↦ subst (λ k. Creates (tasks k) id) e (keeps id new)
        | inr (apart, old) ↦ old
      ]

  Creates-update_idle :
      (id : Text) (j : ℕ) → Creates (update tasks i idle j) id → (i ≢ j) × Creates (tasks j) id
  Creates-update_idle id j c = elim (Creates-update tasks i idle id j c) [
    | inl (e, new) ↦ absurd new
    | inr old ↦ old
  ]

  -- The server changes to one where the ids that are left to create are still fresh.
  IsConsistent-finished :
      (t : Server)
      → IsWellFormed t
      → ((j : ℕ) (id : Text)
          → i ≢ j
          → Creates (tasks j) id
          → IsIssued t.vm_seq id × (load id t.vms ≡ none))
      → IsConsistent t (update tasks i idle)
  IsConsistent-finished t w fresh = record {
    formed = w;
    fresh = λ j id c. fresh j id (Creates-update_idle id j c).0 (Creates-update_idle id j c).1;
    unique =
        λ j k id c d. v.unique j k id (Creates-update_idle id j c).1 (Creates-update_idle id k d).1;
  }

  IsConsistent-removed :
      (id : Text) → IsConsistent (record s { vms = delete id s.vms }) (update tasks i idle)
  IsConsistent-removed id =
      IsConsistent-finished (record s { vms = delete id s.vms })
        (record {
          issued = delete-AllKeys (IsIssued s.vm_seq) id s.vms v.formed.issued;
          distinct = delete-NodupKeys id s.vms v.formed.distinct;
        })
        (λ j n apart c.
          let (issued, free) = v.fresh j n c in
          (issued, load-delete n id s.vms ∙ ground (arith, free)))

  IsConsistent-stored :
      (id : Text) (a : ActiveVm)
      → Creates (tasks i) id
      → IsConsistent (record s { vms = store id a s.vms }) (update tasks i idle)
  IsConsistent-stored id a own =
      IsConsistent-finished (record s { vms = store id a s.vms })
        (record {
          issued =
              store-AllKeys (IsIssued s.vm_seq) id a s.vms (v.fresh i id own).0 v.formed.issued;
          distinct = store-NodupKeys id a s.vms v.formed.distinct;
        })
        (λ j n apart c.
          let (issued, free) = v.fresh j n c in
          let other : id ≢ n = λ e. apart (v.unique i j n (subst (Creates (tasks i)) e own) c) in
          (issued, load-store n id a s.vms ∙ ground (arith, free, eq_iff id n, other)))

  module _ (c : VmConfig) (room : HasRoom s) where
    abbrev reserved : Text
    reserved = instance_id (next_seq s.vm_seq)

    -- An id that another task creates is not the reserved one.
    reserved-ne-old : (j : ℕ) (id : Text) → Creates (tasks j) id → id ≢ reserved
    reserved-ne-old j id d e =
        IsIssued-ne_next s.vm_seq id (v.fresh j id d).0
          (e ∙ ap instance_id (next_seq_of_HasRoom s room))

    reserved-IsIssued : IsIssued (next_seq s.vm_seq) reserved
    reserved-IsIssued =
        (next_seq s.vm_seq, omega (arith, next_seq_of_HasRoom s room), omega arith, refl)

    reserved-fresh :
        (j : ℕ) (id : Text)
        → Creates (update tasks i (launching reserved c) j) id
        → IsIssued (next_seq s.vm_seq) id × (load id s.vms ≡ none)
    reserved-fresh j id d = elim (Creates-update tasks i (launching reserved c) id j d) [
      | inl (e, new) ↦
          subst (λ n. IsIssued (next_seq s.vm_seq) n × (load n s.vms ≡ none)) new
            (reserved-IsIssued, next_id-free s v.formed room)
      | inr (apart, old) ↦ (
        IsIssued-mono s.vm_seq (next_seq s.vm_seq) (omega (arith, next_seq_of_HasRoom s room)) id
            (v.fresh j id old).0,
        (v.fresh j id old).1,
      )
    ]

    reserved_unique :
        (j k : ℕ) (id : Text)
        → Creates (update tasks i (launching reserved c) j) id
        → Creates (update tasks i (launching reserved c) k) id
        → j ≡ k
    reserved_unique j k id d e = elim (Creates-update tasks i (launching reserved c) id j d) [
      | inl (p, new) ↦ elim (Creates-update tasks i (launching reserved c) id k e) [
        | inl (q, again) ↦ sym p ∙ q
        | inr (apart, old) ↦ absurd (reserved-ne-old k id old (sym new))
      ]
      | inr (apart, old) ↦ elim (Creates-update tasks i (launching reserved c) id k e) [
        | inl (q, again) ↦ absurd (reserved-ne-old j id old (sym again))
        | inr (other, older) ↦ v.unique j k id old older
      ]
    ]

    IsConsistent-reserved :
        IsConsistent
          (record s { vm_seq = next_seq s.vm_seq })
          (update tasks i (launching reserved c))
    IsConsistent-reserved = record {
      formed = record { issued = IsIssued-next s v.formed room; distinct = v.formed.distinct };
      fresh = reserved-fresh;
      unique = reserved_unique;
    }

module _ (driver : HypervisorDriver) where
  -- Every move of any task keeps the system consistent, and uses up one number at most.
  Move-IsConsistent :
      {s : Server} {l : Log} {t : Task} {s' : Server} {l' : Log} {t' : Task} (tasks : ℕ → Task)
      (i : ℕ)
      → Move driver s l t s' l' t'
      → tasks i ≡ t
      → HasRoom s
      → IsConsistent s tasks
      → IsConsistent s' (update tasks i t') × (s'.vm_seq ≤ s.vm_seq + 1)
  Move-IsConsistent {s} tasks i (reserve c) e room v =
      (IsConsistent-reserved s tasks i v c room, omega (arith, next_seq_of_HasRoom s room))
  Move-IsConsistent {s} tasks i (launched {id} {c} {a} p) e room v = (
    IsConsistent-quiet s tasks i v (storing id a) (λ j d. subst (λ k. Creates k j) (sym e) d),
    omega arith,
  )
  Move-IsConsistent {s} tasks i (launch_failed p) e room v =
      (IsConsistent-quiet s tasks i v idle (λ j d. absurd d), omega arith)
  Move-IsConsistent {s} tasks i (stored {id} {a}) e room v =
      (IsConsistent-stored s tasks i v id a (subst (λ k. Creates k id) (sym e) refl), omega arith)
  Move-IsConsistent {s} tasks i (loaded {id} {a} p) e room v =
      (IsConsistent-quiet s tasks i v (stopping id a) (λ j d. absurd d), omega arith)
  Move-IsConsistent {s} tasks i (stop_succeeded {id} p) e room v =
      (IsConsistent-quiet s tasks i v (removing id) (λ j d. absurd d), omega arith)
  Move-IsConsistent {s} tasks i (stop_failed p) e room v =
      (IsConsistent-quiet s tasks i v idle (λ j d. absurd d), omega arith)
  Move-IsConsistent {s} tasks i (removed {id}) e room v =
      (IsConsistent-removed s tasks i v id, omega arith)
  Move-IsConsistent {s} tasks i (swept {id} {a} p) e room v =
      (IsConsistent-quiet s tasks i v (sweeping id a) (λ j d. absurd d), omega arith)
  Move-IsConsistent {s} tasks i (sweep_stopped {id}) e room v =
      (IsConsistent-quiet s tasks i v (removing id) (λ j d. absurd d), omega arith)
  Move-IsConsistent {s} tasks i (looked_up {id} {a} p) e room v =
      (IsConsistent-quiet s tasks i v (reading id a) (λ j d. absurd d), omega arith)
  Move-IsConsistent {s} tasks i logs_read e room v =
      (IsConsistent-quiet s tasks i v idle (λ j d. absurd d), omega arith)

  Step-IsConsistent :
      {x y : System}
      → Step driver x y
      → HasRoom x.server
      → IsConsistent x.server x.tasks
      → IsConsistent y.server y.tasks × (y.server.vm_seq ≤ x.server.vm_seq + 1)
  Step-IsConsistent {x} (pick i e m) room v = Move-IsConsistent x.tasks i m e room v

  initial-IsConsistent : (l : Log) → IsConsistent (initial l).server (initial l).tasks
  unfolding new_server
  initial-IsConsistent l = record {
    formed = new_server-IsWellFormed;
    fresh = λ i id c. absurd c;
    unique = λ i j id c d. absurd c;
  }

  -- However the accesses of any number of requests and shutdowns are interleaved, after fewer than
  -- 2 ^ 64 of them the table is well formed, the id of each instance that is being created is not in
  -- the table, and no two tasks create instances with one id; the counter has not wrapped.
  pub Run-IsConsistent :
      {l : Log} {n : ℕ} {x : System}
      → Run driver (initial l) n x
      → n < 2 ^ 64
      → IsConsistent x.server x.tasks × (x.server.vm_seq ≤ n)
  unfolding new_server
  Run-IsConsistent {l} here h = (initial-IsConsistent l, omega arith)
  Run-IsConsistent (step r m) h =
      let (v, small) = Run-IsConsistent r (omega arith) in
      let (w, grown) = Step-IsConsistent m (omega arith) v in (w, omega arith)
