-- ===== src/Daemon/Drivers/Qemu/Overlay.antt =====
-- The overlay of a QEMU instance whose launch fails.
use drover_runner.Base.{Text, Option, none, some, Option-cases, ◌∷◌, ◌≡◌, ◌⊎◌, inl, inr, arith}
use drover_runner.Base.Int.{ℤ}
use drover_runner.Host.{Host, Log, Call, Event, Error, err, now, write_file, remove, start_in}
use drover_runner.Kraft.{Kraft, binary_of}
use drover_runner.Kraft.Launcher.{launch_slice, kraft_args}
use drover_runner.Daemon.Drivers.{Env}
use drover_runner.Daemon.Drivers.Qemu.{overlay_path, launch_vm, launch_config, mock_data}

abbrev event : Call → Option Error → Event
event c f = record { call = c; fault = f }

module _ (h : Host) (env : Env) (k : Kraft) (id image : Text) (memory_mb : ℤ) where
  abbrev path : Text
  path = overlay_path env id

  abbrev spawn : Call
  spawn = start_in image (binary_of k ∷ kraft_args (launch_config image memory_mb))

  -- What a launch that failed did, from the log `l`: it could not write the overlay and did nothing
  -- more; or it wrote it, could not start kraft, and removed it last.
  abbrev pub Undone : Log → Log → Type 0
  Undone l l' =
      let write = write_file path mock_data in
      let timed : Log = event now none ∷ l in
      ((e : Error) × (h.fault timed write ≡ some e) × (l' ≡ event write (some e) ∷ timed))
      ⊎ ((e : Error) × (g : Option Error) × (h.fault timed write ≡ none)
          × (h.fault (event write none ∷ timed) spawn ≡ some e)
          × (l' ≡ event (remove path) g ∷ event spawn (some e) ∷ event write none ∷ timed))

  -- If a launch by the QEMU driver fails, then either WriteFile failed and nothing was done after it,
  -- so that what it may have written stays; or the overlay was written, kraft did not start, and the
  -- last call asks for the removal of the overlay.
  pub launch_vm-Undone :
      (l : Log) (e : Error)
      → (launch_vm h env k id image memory_mb l).0 ≡ err e
      → Undone l (launch_vm h env k id image memory_mb l).1
  unfolding launch_vm launch_slice
  launch_vm-Undone l e failed =
      let write = write_file path mock_data in
      let timed : Log = event now none ∷ l in
      let wrote : Log = event write none ∷ timed in
      elim (Option-cases (h.fault timed write)) [
        | inr (cause, bad) ↦ inl (cause, bad, ground (arith, bad))
        | inl written ↦ elim (Option-cases (h.fault wrote spawn)) [
          | inr (cause, bad) ↦ inr (
            cause,
            h.fault (event spawn (some cause) ∷ wrote) (remove path),
            written,
            bad,
            ground (arith, written, bad),
          )
          | inl running ↦ absurd (ground (arith, written, running, failed))
        ]
      ]
