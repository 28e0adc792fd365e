-- ===== src/Daemon/Server/Invariant.antt =====
-- What holds of the server after any requests: its ids are its own, and no two are the same.
use drover_runner.Base.{
  Text, ℕ, suc, ◌+◌, ◌≤◌, ◌<◌, ◌^◌, List, [], ◌∷◌, none, ◌≡◌, ◌≢◌, refl, sym, ◌∙◌, arith, inl, inr,
}
use drover_runner.Host.{Log}
use drover_runner.Daemon.Ids.{instance_id, next_seq, instance_id_injective}
use drover_runner.Daemon.Types.{HypervisorDriver, ActiveVm}
use drover_runner.Daemon.Table.{
  load, delete, NodupKeys, AllKeys, store-NodupKeys, delete-NodupKeys, store-AllKeys,
  delete-AllKeys, AllKeys-mono, load_of_AllKeys,
}
use drover_runner.Daemon.Server.{
  Codec, Request, Server, new_server, serve_http, stop_each, stop_all,
}
use drover_runner.Daemon.Server.Changes.{Change, serve_http-Change}

-- An id that was made from one of the numbers up to `seq`.
abbrev pub IsIssued : ℕ → Text → Type 0
IsIssued seq id = (n : ℕ) × (1 ≤ n) × (n ≤ seq) × (id ≡ instance_id n)

-- Every key was issued, and none is listed twice.
pub record IsWellFormed (s : Server) : Type 0 where
  pub issued : AllKeys (IsIssued s.vm_seq) s.vms
  pub distinct : NodupKeys s.vms

-- The counter does not wrap.
abbrev pub HasRoom : Server → Type 0
HasRoom s = s.vm_seq + 1 < 2 ^ 64

pub next_seq_of_HasRoom : (s : Server) → HasRoom s → next_seq s.vm_seq ≡ s.vm_seq + 1
unfolding next_seq
next_seq_of_HasRoom s h = omega arith

pub IsIssued-mono : (m n : ℕ) → m ≤ n → (id : Text) → IsIssued m id → IsIssued n id
IsIssued-mono m n h id (k, a, b, e) = (k, a, omega arith, e)

pub IsIssued-ne_next : (seq : ℕ) (id : Text) → IsIssued seq id → id ≢ instance_id (seq + 1)
IsIssued-ne_next seq id (n, a, b, e) same =
    absurd (omega (arith, instance_id_injective n (seq + 1) (sym e ∙ same)))

-- The id that the next instance gets is free, so a new instance never takes the place of one.
pub next_id-free :
    (s : Server) → IsWellFormed s → HasRoom s → load (instance_id (next_seq s.vm_seq)) s.vms ≡ none
next_id-free s v h = rw (next_seq_of_HasRoom s h) (
    load_of_AllKeys (instance_id (s.vm_seq + 1)) s.vms (
      AllKeys-mono (IsIssued s.vm_seq) (λ j. j ≢ instance_id (s.vm_seq + 1))
        (IsIssued-ne_next s.vm_seq) s.vms v.issued))

pub new_server-IsWellFormed : IsWellFormed new_server
unfolding new_server
new_server-IsWellFormed = record { issued = tt; distinct = tt }

pub IsIssued-next :
    (s : Server) → IsWellFormed s → HasRoom s → AllKeys (IsIssued (next_seq s.vm_seq)) s.vms
IsIssued-next s v h =
    AllKeys-mono (IsIssued s.vm_seq) (IsIssued (next_seq s.vm_seq))
      (IsIssued-mono s.vm_seq (next_seq s.vm_seq) (omega (arith, next_seq_of_HasRoom s h))) s.vms
      v.issued

-- Every change keeps the server well formed, and uses up one number at most.
pub Change-IsWellFormed :
    (driver : HypervisorDriver) (s t : Server)
    → IsWellFormed s
    → HasRoom s
    → Change driver s t
    → IsWellFormed t × (t.vm_seq ≤ s.vm_seq + 1)
Change-IsWellFormed driver s t v h (inl e) = rw e (v, omega arith)
Change-IsWellFormed driver s t v h (inr (inl (c, l, cause, l', failed, e))) = rw e (
  record { issued = IsIssued-next s v h; distinct = v.distinct },
  omega (arith, next_seq_of_HasRoom s h),
)
Change-IsWellFormed driver s t v h (inr (inr (inl (c, l, a, l', launched, e)))) =
    let seq : ℕ = next_seq s.vm_seq in
    let own : IsIssued seq (instance_id seq) =
      (seq, omega (arith, next_seq_of_HasRoom s h), omega arith, refl) in
    rw e (
      record {
        issued = store-AllKeys (IsIssued seq) (instance_id seq) a s.vms own (IsIssued-next s v h);
        distinct = store-NodupKeys (instance_id seq) a s.vms v.distinct;
      },
      omega (arith, next_seq_of_HasRoom s h),
    )
Change-IsWellFormed driver s t v h (inr (inr (inr (id, a, l, l', found, done, e)))) = rw e (
  record {
    issued = delete-AllKeys (IsIssued s.vm_seq) id s.vms v.issued;
    distinct = delete-NodupKeys id s.vms v.distinct;
  },
  omega arith,
)

stop_each-IsWellFormed :
    (vms : List (Text × ActiveVm)) (s : Server) (l : Log)
    → IsWellFormed s
    → IsWellFormed (stop_each vms s l).0 × ((stop_each vms s l).0.vm_seq ≡ s.vm_seq)
unfolding stop_each
stop_each-IsWellFormed [] s l v = (v, refl)
stop_each-IsWellFormed ((id, a) ∷ rest) s l v =
    stop_each-IsWellFormed rest (record s { vms = delete id s.vms }) (a.stop l).1
      (record {
        issued = delete-AllKeys (IsIssued s.vm_seq) id s.vms v.issued;
        distinct = delete-NodupKeys id s.vms v.distinct;
      })

module _ (json : Codec) (driver : HypervisorDriver) (token : Text) where
  -- The servers that `n` requests and any calls of StopAll lead to, over any host.
  pub data Reach : ℕ → Server → Type 0 where
    start : Reach 0 new_server
    request :
        {n : ℕ} {s : Server} (r : Request) (l : Log)
        → Reach n s
        → Reach (suc n) (serve_http json driver token r s l).server
    shutdown : {n : ℕ} {s : Server} (l : Log) → Reach n s → Reach n (stop_all s l).0

  -- After fewer than 2 ^ 64 requests the server is well formed and its counter has not wrapped.
  pub Reach-IsWellFormed :
      {n : ℕ} {s : Server} → Reach n s → n < 2 ^ 64 → IsWellFormed s × (s.vm_seq ≤ n)
  unfolding new_server stop_all
  Reach-IsWellFormed start h = (new_server-IsWellFormed, omega arith)
  Reach-IsWellFormed (request {n} {s} r l before) h =
      let (v, small) = Reach-IsWellFormed before (omega arith) in
      let (w, grown) =
        Change-IsWellFormed driver s _ v (omega arith)
          (serve_http-Change driver json token r s l) in
      (w, omega arith)
  Reach-IsWellFormed (shutdown {n} {s} l before) h =
      let (v, small) = Reach-IsWellFormed before h in
      let (w, same) = stop_each-IsWellFormed s.vms s l v in (w, omega (arith, same))
