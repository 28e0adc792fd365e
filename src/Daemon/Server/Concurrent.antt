-- ===== src/Daemon/Server/Concurrent.antt =====
-- The handlers of pkg/daemon/server.go served at the same time: net/http runs each request in a
-- goroutine of its own. A task is what is left to do of a request, between two accesses to what
-- they share: the counter under its mutex, the sync.Map and the host. A call of the driver, of Stop
-- or of Logs is one access.
pub mod Invariant
pub mod Serial
pub mod Twice
use drover_runner.Base.{
  Text, ℕ, zero, suc, nat_eq, nat_eq_iff, arith, ◌≢◌, if◌then◌else◌, some, ◌≡◌,
}
use drover_runner.Host.{Log, Error, ok, err}
use drover_runner.Daemon.Ids.{instance_id, next_seq}
use drover_runner.Daemon.Types.{HypervisorDriver, ActiveVm, VmConfig}
use drover_runner.Daemon.Table.{load, store, delete}
use drover_runner.Daemon.Server.{Server, new_server}

pub data Task : Type 0 where
  -- no request, or one that is answered
  idle : Task
  -- handleCreateInstance behind Unlock, and behind LaunchVM
  launching : Text → VmConfig → Task
  storing : Text → ActiveVm → Task
  -- handleDeleteInstance behind Load, and behind Stop
  stopping : Text → ActiveVm → Task
  removing : Text → Task
  -- handleGetInstanceLogs behind Load
  reading : Text → ActiveVm → Task
  -- StopAll on one entry
  sweeping : Text → ActiveVm → Task

module _ (driver : HypervisorDriver) where
  -- One access by one task: what it finds, and what it leaves.
  pub data Move (s : Server) (l : Log) : Task → Server → Log → Task → Type 0 where
    reserve :
        (c : VmConfig)
        → Move s l idle
            (record s { vm_seq = next_seq s.vm_seq })
            l
            (launching (instance_id (next_seq s.vm_seq)) c)
    launched :
        {id : Text} {c : VmConfig} {a : ActiveVm} {l' : Log}
        → driver.launch_vm id c.image_name c.memory_mb c.env l ≡ (ok a, l')
        → Move s l (launching id c) s l' (storing id a)
    launch_failed :
        {id : Text} {c : VmConfig} {e : Error} {l' : Log}
        → driver.launch_vm id c.image_name c.memory_mb c.env l ≡ (err e, l')
        → Move s l (launching id c) s l' idle
    stored :
        {id : Text} {a : ActiveVm}
        → Move s l (storing id a) (record s { vms = store id a s.vms }) l idle
    loaded : {id : Text} {a : ActiveVm} → load id s.vms ≡ some a → Move s l idle s l (stopping id a)
    stop_succeeded :
        {id : Text} {a : ActiveVm} {l' : Log}
        → a.stop l ≡ (ok tt, l')
        → Move s l (stopping id a) s l' (removing id)
    stop_failed :
        {id : Text} {a : ActiveVm} {e : Error} {l' : Log}
        → a.stop l ≡ (err e, l')
        → Move s l (stopping id a) s l' idle
    removed : {id : Text} → Move s l (removing id) (record s { vms = delete id s.vms }) l idle
    -- the callback of Range in StopAll, on an entry; the error of Stop is printed only
    swept : {id : Text} {a : ActiveVm} → load id s.vms ≡ some a → Move s l idle s l (sweeping id a)
    sweep_stopped :
        {id : Text} {a : ActiveVm} → Move s l (sweeping id a) s (a.stop l).1 (removing id)
    -- handleGetInstanceLogs of an instance
    looked_up :
        {id : Text} {a : ActiveVm} → load id s.vms ≡ some a → Move s l idle s l (reading id a)
    logs_read : {id : Text} {a : ActiveVm} → Move s l (reading id a) s (a.logs l).1 idle

-- The tasks by number; those that are not used are idle.
pub record System : Type 0 where
  pub server : Server
  pub log : Log
  pub tasks : ℕ → Task

unfoldable pub update : (ℕ → Task) → ℕ → Task → ℕ → Task
update f i t j = if nat_eq i j then t else f j

-- The task that moves is the new one.
pub update-at : (f : ℕ → Task) (i : ℕ) (t : Task) → update f i t i ≡ t
unfolding update
update-at f i t = ground (arith, nat_eq_iff i i)

-- Every other task stays.
pub update-other : (f : ℕ → Task) (i j : ℕ) (t : Task) → i ≢ j → update f i t j ≡ f j
unfolding update
update-other f i j t apart = ground (arith, nat_eq_iff i j, apart)

module _ (driver : HypervisorDriver) where
  -- Any task makes a move.
  pub data Step (x : System) : System → Type 0 where
    pick :
        (i : ℕ) {t : Task} {s : Server} {l : Log} {t' : Task}
        → x.tasks i ≡ t
        → Move driver x.server x.log t s l t'
        → Step x (record { server = s; log = l; tasks = update x.tasks i t' })

  -- The systems that `n` moves lead to.
  pub data Run (x : System) : ℕ → System → Type 0 where
    here : Run x zero x
    step : {n : ℕ} {y z : System} → Run x n y → Step y z → Run x (suc n) z

-- A server that has just been made, with no requests.
abbrev pub initial : Log → System
initial l = record { server = new_server; log = l; tasks = λ _. idle }
