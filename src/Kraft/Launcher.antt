-- ===== src/Kraft/Launcher.antt =====
-- pkg/kraft/launcher.go: `kraft run` as a child process, and how it is stopped. The goroutine that
-- waits for the child is the host's answer to `wait_exit` and `wait_for`.
pub mod Stop
use drover_runner.Base.{
  Text, ◌++◌, lit, ◌==◌, decimal, List, [], ◌∷◌, Bool, not, if◌then◌else◌, Option, none, some,
}
use drover_runner.Host.{
  Host, M, pure, context, ignore, attempt, or_else, perform, ask_number, Result, ok, err, start_in,
  getpgid, send_signal, send_group, wait_exit, wait_for, ◌>>=◌, ◌>>◌,
}
use drover_runner.Kraft.{Kraft, binary_of}

pub record LaunchConfig : Type 0 where
  pub project_dir : Text
  pub target : Text
  pub plat : Text
  pub memory : Text
  pub no_prompt : Bool

-- The process is known by its command; `none` is a nil cmd or Process.
pub record SliceInstance : Type 0 where
  pub id : Text
  pub process : Option (List Text)

-- A flag with its value, if the value is not empty.
unfoldable pub option_args : Text → Text → List Text
option_args flag value = if not (value == []) then flag ∷ value ∷ [] else []

unfoldable pub kraft_args : LaunchConfig → List Text
unfolding option_args
kraft_args cfg =
    ((((lit "run" ∷ []) ++ option_args (lit "-t") cfg.target)
        ++ option_args (lit "--plat") cfg.plat)
      ++ option_args (lit "--memory") cfg.memory)
    ++ (if cfg.no_prompt then lit "--no-prompt" ∷ [] else [])
    ++ cfg.project_dir ∷ []

module _ (h : Host) where
  unfoldable pub launch_slice : Kraft → LaunchConfig → M SliceInstance
  unfolding kraft_args binary_of
  launch_slice k cfg =
      context (ask_number h (start_in cfg.project_dir (binary_of k ∷ kraft_args cfg)))
        (lit "failed to start virtual slice")
      >>= λ pid. pure (record {
        id = lit "slice-" ++ decimal pid;
        process = some (binary_of k ∷ kraft_args cfg);
      })

  -- The signal, to the group if it is known.
  unfoldable pub signal_slice : Text → List Text → Result (Unit {0}) → M (Unit {0})
  signal_slice s args (ok _) = ignore (perform h (send_group s args))
  signal_slice s args (err _) = ignore (perform h (send_signal s args))

  -- SIGINT, and SIGKILL after three seconds; then it waits for the exit.
  unfoldable pub stop_process : Option (List Text) → M (Unit {0})
  unfolding signal_slice
  stop_process none = pure tt
  stop_process (some args) = attempt (perform h (getpgid args)) >>= λ group.
      (signal_slice (lit "SIGINT") args group >> λ l.
      or_else (perform h (wait_exit 3000 args) l)
        (λ _. signal_slice (lit "SIGKILL") args group >> ignore (perform h (wait_for args))))

  unfoldable pub stop_slice : SliceInstance → M (Unit {0})
  unfolding stop_process
  stop_slice s = stop_process s.process

  -- Wait, on the process of a slice.
  unfoldable pub wait_slice : List Text → M (Unit {0})
  wait_slice args = perform h (wait_for args)
