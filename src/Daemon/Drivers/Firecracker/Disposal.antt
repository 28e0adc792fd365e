-- ===== src/Daemon/Drivers/Firecracker/Disposal.antt =====
-- What Stop of an instance does with its process, its TAP device and its overlay.
use drover_runner.Base.{
  Text, ℕ, Bool, true, false, Bool-cases, Option, none, some, List, ◌≡◌, ◌∙◌, refl, ap, subst, inl,
  inr, arith,
}
use drover_runner.Base.Int.{ℤ}
use drover_runner.Host.{Host, Log, Call, Result, ok, err, print, and_then-ok, attempt, now, ◌>>=◌}
use drover_runner.Host.Ledger.{held, is_start, is_stopped}
use drover_runner.Host.Shrinks.{Shrinks, is_maker}
use drover_runner.Network.{tap_name}
use drover_runner.Network.Linux.{LinuxNetworkManager, linux_manager, release_tap, delete_link}
use drover_runner.Network.Allocation.{tap_held}
use drover_runner.Storage.{shred_file, ShredRecord, register_audit}
use drover_runner.Storage.Zeroing.{IsDisk}
use drover_runner.Storage.Frame.{shred_file-Shrinks}
use drover_runner.Firecracker.{FirecrackerOrchestrator, Formats, stop, stop_process}
use drover_runner.Firecracker.Process.{process_held}
use drover_runner.Daemon.Drivers.{Env, audit_shred}
use drover_runner.Daemon.Drivers.Audits.{
  audit_shred-ok, audits, Silent, Accounted, audit_shred-Accounted,
}
use drover_runner.Daemon.Drivers.Firecracker.{overlay_path, stop_vm, first_error}
use drover_runner.Daemon.Drivers.Firecracker.Launch.{driver, process-IsMade}
use drover_runner.Daemon.Drivers.Firecracker.Processes.{Clears-stop}
use drover_runner.Daemon.Drivers.Firecracker.Resources.{
  IsMade, Keeps-delete_link, Keeps-stop_process,
}
use drover_runner.Daemon.Drivers.Firecracker.Teardown.{stop_vm-tap_held}

-- The audit makes nothing but the line that it prints.
audit_shred-Shrinks :
    (makes frees : Call → Bool)
    → ((c : Call) → is_maker c ≡ false → makes c ≡ false)
    → ((t : Text) → makes (print t) ≡ false)
    → (h : Host) (env : Env) (id overlay : Text) (memory_mb : ℤ) (started : ℕ)
      (r : Result (Option ShredRecord))
    → Shrinks makes frees (audit_shred h env id memory_mb overlay started r)
unfolding audit_shred held register_audit
audit_shred-Shrinks makes frees idle silent h env id overlay memory_mb started (err e) l k =
    grind (arith, silent)
audit_shred-Shrinks makes frees idle silent h env id overlay memory_mb started (ok none) l k = k
audit_shred-Shrinks makes frees idle silent h env id overlay memory_mb started (ok (some r)) l k =
    grind (arith, idle now refl, silent)

Silent-stop_process :
    (h : Host) (f : Formats) (socket : Text) (process : Option (List Text))
    → Silent (stop_process h f socket process)
unfolding stop_process audits
Silent-stop_process h f socket none l = refl
Silent-stop_process h f socket (some args) l = ground arith

module _ (h : Host) (f : Formats) (env : Env) (bin kernel : Text) (m : LinuxNetworkManager)
    (id : Text) (memory_mb : ℤ) (started : ℕ) (o : FirecrackerOrchestrator) where
  abbrev stopping : Log → Result (Unit {0}) × Log
  stopping l = stop_vm h f env (driver h f env bin kernel m) id memory_mb started o l

  abbrev shredding : Log → Result (Option ShredRecord) × Log
  shredding l = shred_file h env.sha256 (overlay_path env id) (stop h f o l).1

  abbrev auditing : Log → Result (Unit {0}) × Log
  auditing l =
      audit_shred h env id memory_mb (overlay_path env id) started (shredding l).0 (shredding l).1

  -- What Stop does: the process, the overlay, the audit and the device.
  stop_vm-log : (l : Log) → (stopping l).1 ≡ (release_tap h m id (auditing l).1).1
  unfolding stop_vm linux_manager
  stop_vm-log l =
      ap (λ p. p.1)
        (and_then-ok (auditing l)
          (λ _. attempt (release_tap h m id) >>= λ released k.
            (first_error (stop h f o l).0 released, k))
          tt
          (audit_shred-ok h env id (overlay_path env id) memory_mb started (shredding l).0
            (shredding l).1))

  module _ (makes frees : Call → Bool) (q : IsMade makes) where
    Shrinks-release : Shrinks makes frees (release_tap h m id)
    unfolding release_tap
    Shrinks-release = Keeps-delete_link makes frees q h (tap_name id)

    Shrinks-stop : Shrinks makes frees (stop h f o)
    unfolding stop
    Shrinks-stop = Keeps-stop_process makes frees q h f o.socket_path o.process

    Shrinks-shredding : Shrinks makes frees (shred_file h env.sha256 (overlay_path env id))
    Shrinks-shredding = shred_file-Shrinks makes frees q.idle h env.sha256 (overlay_path env id)

  -- A resource that is there after Stop was there after the audit.
  stop_vm-Shrinks :
      (makes frees : Call → Bool)
      → IsMade makes
      → (l : Log) → held makes frees (stopping l).1 ≡ true
      → held makes frees (auditing l).1 ≡ true
  stop_vm-Shrinks makes frees q l k =
      Shrinks-release makes frees q (auditing l).1
        (subst (λ j. held makes frees j ≡ true) (stop_vm-log l) k)

  stop_vm-process_held :
      (args : List Text) (l : Log)
      → o.process ≡ some args
      → process_held args (stopping l).1 ≡ false
  unfolding process_held
  stop_vm-process_held args l running =
      let made = process-IsMade args in
      elim (Bool-cases (held (is_start args) (is_stopped args) (stopping l).1)) [
        | inr gone ↦ gone
        | inl there ↦
            let audited_still = stop_vm-Shrinks (is_start args) (is_stopped args) made l there in
            let shredded_still =
              audit_shred-Shrinks (is_start args) (is_stopped args) made.idle (λ t. refl) h env id
                (overlay_path env id) memory_mb started (shredding l).0 (shredding l).1
                audited_still in
            let stopped_still =
              Shrinks-shredding (is_start args) (is_stopped args) made (stop h f o l).1
                shredded_still in
            absurd (cc (Clears-stop h f args o running l, stopped_still))
      ]

  Silent-stop : Silent (stop h f o)
  unfolding stop
  Silent-stop l = Silent-stop_process h f o.socket_path o.process l

  Silent-release : Silent (release_tap h m id)
  unfolding release_tap delete_link audits
  Silent-release l = refl

  module _ (disk : Log → Text) (d : IsDisk h (overlay_path env id) disk) where
    -- Stop of a Firecracker instance with a process, whatever fails: a signal was sent to the
    -- process, and the TAP device was asked to be deleted, since they were made. Either its
    -- shredding failed and it printed no audit; or the overlay, on a file system that behaves as
    -- documented, had every byte overwritten by zeroes and flushed before it was unlinked, and it
    -- printed at most one.
    pub stop_vm-Disposed :
        (args : List Text) (l : Log)
        → o.process ≡ some args
        → (process_held args (stopping l).1 ≡ false)
          × (tap_held (tap_name id) (stopping l).1 ≡ false)
          × Accounted h env (overlay_path env id) disk d (stop h f o l).1 l (stopping l).1
    stop_vm-Disposed args l running = (
      stop_vm-process_held args l running,
      stop_vm-tap_held h f env bin kernel m id memory_mb started o l,
      audit_shred-Accounted h env (overlay_path env id) disk d id memory_mb started (stop h f o l).1
          l (stopping l).1 (Silent-stop l)
          (ap audits (stop_vm-log l) ∙ Silent-release (auditing l).1),
    )
