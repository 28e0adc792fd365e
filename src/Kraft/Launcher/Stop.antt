-- ===== src/Kraft/Launcher/Stop.antt =====
-- How Stop ends a slice.
use drover_runner.Base.{
  Text, lit, List, ◌∷◌, Option, none, some, ◌≡◌, ◌⊎◌, refl, inl, inr, arith, Option-cases,
}
use drover_runner.Host.{
  of_fault, Host, Log, Call, Event, Error, ok, getpgid, send_group, send_signal, wait_exit,
  wait_for,
}
use drover_runner.Kraft.Launcher.{SliceInstance, stop_slice, stop_process, signal_slice}

abbrev event : Call → Option Error → Event
event c f = record { call = c; fault = f }

-- The signal goes to the group, if Getpgid has told it, and otherwise to the process.
abbrev pub signal_call : Option Error → Text → List Text → Call
signal_call none s args = send_group s args
signal_call (some e) s args = send_signal s args

module _ (h : Host) (args : List Text) where
  -- What a stop from the log `l` does: SIGINT, and then either the process exits in time, or it is
  -- killed and its exit is waited for without limit.
  abbrev pub Ended : Log → Log → Type 0
  Ended l l' =
      (i : Option Error) × (let g = h.fault l (getpgid args) in
        let m = event (signal_call g (lit "SIGINT") args) i ∷ event (getpgid args) g ∷ l in
        ((h.fault m (wait_exit 3000 args) ≡ none) × (l' ≡ event (wait_exit 3000 args) none ∷ m))
        ⊎ ((late : Error) × (k : Option Error) × (f : Option Error) × (h.fault m
                (wait_exit 3000 args)
              ≡ some late)
            × (l'
                ≡ event (wait_for args) f
                  ∷ event (signal_call g (lit "SIGKILL") args) k
                  ∷ event (wait_exit 3000 args) (some late)
                  ∷ m)))

  signal_slice-signal_call :
      (s : Text) (g : Option Error) (l : Log)
      → signal_slice h s args (of_fault g tt) l
        ≡ (ok tt, event (signal_call g s args) (h.fault l (signal_call g s args)) ∷ l)
  unfolding signal_slice
  signal_slice-signal_call s none l = refl
  signal_slice-signal_call s (some e) l = refl

  -- Stop of a slice with a process always succeeds, and only after the exit of the process was
  -- waited for: SIGINT is sent, to the group if it is known; if the process has not exited within
  -- three seconds, then SIGKILL the same way, and the exit is waited for without limit.
  pub stop_process-Ended :
      (l : Log)
      → ((stop_process h (some args) l).0 ≡ ok tt) × Ended l (stop_process h (some args) l).1
  unfolding stop_process
  stop_process-Ended l =
      let g = h.fault l (getpgid args) in
      let m : Log = event (getpgid args) g ∷ l in
      let interrupt = signal_call g (lit "SIGINT") args in
      let asked : Log = event interrupt (h.fault m interrupt) ∷ m in
      let sent = signal_slice-signal_call (lit "SIGINT") g m in
      elim (Option-cases (h.fault asked (wait_exit 3000 args))) [
        | inl exited ↦ (
          ground (arith, exited, sent),
          (h.fault m interrupt, inl (exited, ground (arith, exited, sent))),
        )
        | inr (late, slow) ↦
            let waited : Log = event (wait_exit 3000 args) (some late) ∷ asked in
            let kill = signal_call g (lit "SIGKILL") args in
            let killed : Log = event kill (h.fault waited kill) ∷ waited in
            let forced = signal_slice-signal_call (lit "SIGKILL") g waited in
            (
              ground (arith, slow, sent, forced),
              (
                h.fault m interrupt,
                inr (
                  late,
                  h.fault waited kill,
                  h.fault killed (wait_for args),
                  slow,
                  ground (arith, slow, sent, forced),
                ),
              ),
            )
      ]

-- Stop of a slice never reports an error.
pub stop_slice-ok : (h : Host) (s : SliceInstance) (l : Log) → (stop_slice h s l).0 ≡ ok tt
unfolding stop_slice
stop_slice-ok h s l = elim (Option-cases s.process) [
  | inl nothing ↦ rw (stop_slice, nothing) (unfold stop_process in refl)
  | inr (args, there) ↦ rw (stop_slice, there) (stop_process-Ended h args l).0
]
