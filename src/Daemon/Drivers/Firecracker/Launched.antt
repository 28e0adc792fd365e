-- ===== src/Daemon/Drivers/Firecracker/Launched.antt =====
-- What a launch that succeeds answers.
use drover_runner.Base.{Text, ℕ, some, ◌≡◌, refl}
use drover_runner.Base.Int.{ℤ}
use drover_runner.Host.{Host, Log, M, Result, ok, err, and_then, pure, ◌>>=◌, ◌>>◌}
use drover_runner.Network.Linux.{LinuxNetworkManager, linux_manager}
use drover_runner.Storage.{clock}
use drover_runner.Firecracker.{FirecrackerOrchestrator, Formats, command}
use drover_runner.Daemon.Types.{ActiveVm}
use drover_runner.Daemon.Drivers.{Env}
use drover_runner.Daemon.Drivers.Firecracker.{active_vm, boot, launch_on, launch_vm, orchestrator}
use drover_runner.Daemon.Drivers.Firecracker.Launch.{driver, copied, booted}
use drover_runner.Daemon.Drivers.Firecracker.Failure.{allocated, bridged}
use drover_runner.Daemon.Drivers.Firecracker.Processes.{spawning, spawning-started}

-- What the operation answers, if it succeeds.
abbrev Gives : {A : Type 0} → M A → (A → Type 0) → Type 0
Gives {A} m P = (l : Log) (a : A) → (m l).0 ≡ ok a → P a

module _ {A B : Type 0} (m : M A) (k : A → M B) (P : A → Type 0) (Q : B → Type 0) where
  and_then-Gives :
      (p : Result A × Log)
      → ((a : A) → p.0 ≡ ok a → P a)
      → ((a : A) → P a → Gives (k a) Q)
      → (b : B) → (and_then p k).0 ≡ ok b
      → Q b
  and_then-Gives (ok a, l) first next b e = next a (first a refl) l b e
  and_then-Gives (err cause, l) first next b e = absurd (cc e)

  Gives-bind : Gives m P → ((a : A) → P a → Gives (k a) Q) → Gives (m >>= k) Q
  Gives-bind first next l = and_then-Gives (m l) (first l) next

-- A step whose answer does not matter.
Gives-then :
    {A B : Type 0} (m : M A) (k : A → M B) (Q : B → Type 0)
    → ((a : A) → Gives (k a) Q)
    → Gives (m >>= k) Q
Gives-then {A} m k Q next = Gives-bind m k (λ _. Unit) Q (λ l a e. tt) (λ a _. next a)

module _ (h : Host) (f : Formats) (env : Env) (bin kernel : Text) (m : LinuxNetworkManager)
    (id image : Text) (memory_mb : ℤ) where
  -- The entry of an instance, with the firecracker process that was started for it.
  abbrev pub Launched : ActiveVm → Type 0
  Launched active =
      (started : ℕ) × (o : FirecrackerOrchestrator) × (active
        ≡ active_vm h f env (driver h f env bin kernel m) id memory_mb started o)
      × (o.process ≡ some (command (orchestrator h f env (driver h f env bin kernel m) id)))

  launch_on-Launched :
      (started : ℕ) (tap : Text × Text)
      → Gives
          (launch_on h f env (driver h f env bin kernel m) id image memory_mb started tap)
          Launched
  unfolding launch_on linux_manager
  launch_on-Launched started tap =
      Gives-then (copied h f env bin kernel m id image memory_mb started tap)
        (λ _.
          spawning h f env bin kernel m id image memory_mb started tap
          >>= booted h f env bin kernel m id image memory_mb started tap)
        Launched
        (λ _.
          Gives-bind (spawning h f env bin kernel m id image memory_mb started tap)
            (booted h f env bin kernel m id image memory_mb started tap)
            (λ o.
              o.process ≡ some (command (orchestrator h f env (driver h f env bin kernel m) id)))
            Launched (spawning-started h f env bin kernel m id image memory_mb started tap)
            (λ o running.
              Gives-then (boot h f env (driver h f env bin kernel m) id memory_mb tap o)
                (λ _. pure (active_vm h f env (driver h f env bin kernel m) id memory_mb started o))
                Launched (λ _ l a e. (started, o, cc (e), running))))

  -- A launch by the Firecracker driver that succeeds answers the entry of its instance, whose Stop
  -- knows the firecracker process that was started.
  pub launch_vm-Launched :
      Gives (launch_vm h f env (driver h f env bin kernel m) id image memory_mb) Launched
  unfolding launch_vm linux_manager
  launch_vm-Launched =
      Gives-then (clock h)
        (λ started.
          bridged h f env bin kernel m id image memory_mb
          >> (allocated h f env bin kernel m id image memory_mb
              >>= launch_on h f env (driver h f env bin kernel m) id image memory_mb started))
        Launched
        (λ started.
          Gives-then (bridged h f env bin kernel m id image memory_mb)
            (λ _.
              allocated h f env bin kernel m id image memory_mb
              >>= launch_on h f env (driver h f env bin kernel m) id image memory_mb started)
            Launched
            (λ _.
              Gives-then (allocated h f env bin kernel m id image memory_mb)
                (launch_on h f env (driver h f env bin kernel m) id image memory_mb started)
                Launched (launch_on-Launched started)))
