-- ===== src/Daemon/EndToEnd/Cycle.antt =====
-- An instance over the Firecracker driver, from its creation to its deletion.
use drover_runner.Base.{Text, ℕ, false, some, none, ◌≡◌}
use drover_runner.Host.{Host, Log}
use drover_runner.Network.{tap_name}
use drover_runner.Network.Linux.{LinuxNetworkManager}
use drover_runner.Network.Allocation.{tap_held}
use drover_runner.Storage.Zeroing.{IsDisk}
use drover_runner.Firecracker.{Formats, FirecrackerOrchestrator, command, stop}
use drover_runner.Firecracker.Process.{process_held}
use drover_runner.Daemon.Writer.{Writer}
use drover_runner.Daemon.Drivers.{Env}
use drover_runner.Daemon.Drivers.Firecracker.{overlay_path, orchestrator}
use drover_runner.Daemon.Drivers.Audits.{Accounted}
use drover_runner.Daemon.Server.{Codec, Request, Server, Served, serve_http}
use drover_runner.Daemon.EndToEnd.{fc, service, next_id}
use drover_runner.Daemon.EndToEnd.Delete.{Answered}

-- The status of an answer, if one was set.
abbrev status : Writer → ℕ
status w = elim w.sent [ none ↦ 0 | some p ↦ p.0 ]

module _ (h : Host) (f : Formats) (env : Env) (bin kernel : Text) (m : LinuxNetworkManager)
    (json : Codec) (token : Text) where
  abbrev own : Server → Text
  own s = next_id h f env bin kernel m json token s

  module _ (s : Server) (disk : Log → Text) (d : IsDisk h (overlay_path env (own s)) disk) where
    -- What a DELETE of the created instance leaves, from a server `t` and a host with the log `k`.
    abbrev pub Deleted : Server → Log → Served → Type 0
    Deleted t k u =
        Answered h f env bin kernel m json token (own s) t u
        × (process_held (command (orchestrator h f env (fc h f env bin kernel m) (own s))) u.log
            ≡ false)
        × (tap_held (tap_name (own s)) u.log ≡ false)
        × ((o : FirecrackerOrchestrator) × (o.process
              ≡ some (command (orchestrator h f env (fc h f env bin kernel m) (own s))))
            × Accounted h env (overlay_path env (own s)) disk d (stop h f o k).1 k u.log)

    abbrev answer : Request → Server → Log → Served
    answer r t l = serve_http json (service h f env bin kernel m) token r t l
