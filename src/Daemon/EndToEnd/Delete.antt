-- ===== src/Daemon/EndToEnd/Delete.antt =====
-- The REST server over the Firecracker driver: what a request to delete an instance does to the
-- host.
use drover_runner.Base.{Text, lit, ◌++◌, ℕ, [], ◌∷◌, ◌≡◌, ◌⊎◌, refl, inl, inr}
use drover_runner.Base.Int.{ℤ}
use drover_runner.Host.{Host, Log, Error, Result, error_text, ok, err}
use drover_runner.Network.Linux.{LinuxNetworkManager}
use drover_runner.Storage.Zeroing.{IsDisk}
use drover_runner.Firecracker.{Formats, FirecrackerOrchestrator}
use drover_runner.Daemon.Types.{ActiveVm, HypervisorDriver}
use drover_runner.Daemon.Table.{delete}
use drover_runner.Daemon.Drivers.{Env}
use drover_runner.Daemon.Drivers.Firecracker.{active_vm, overlay_path, firecracker_driver}
use drover_runner.Daemon.Drivers.Firecracker.Launch.{driver}
use drover_runner.Daemon.Writer.{write_header}
use drover_runner.Daemon.Server.{Codec, Request, Server, Served, serve_http, stopped}
use drover_runner.Daemon.Server.Auth.{ready}
use drover_runner.Daemon.Server.Lifecycle.{response}

module _ (h : Host) (f : Formats) (env : Env) (bin kernel : Text) (m : LinuxNetworkManager) where
  -- The entry of an instance that the driver launched.
  abbrev pub instance : Text → ℤ → ℕ → FirecrackerOrchestrator → ActiveVm
  instance id memory_mb started o =
      active_vm h f env (driver h f env bin kernel m) id memory_mb started o

  module _ (json : Codec) (token : Text) where
    -- The answer: the instance is out of the table, or it stays with an error.
    abbrev pub Answered : Text → Server → Served → Type 0
    Answered id s v =
        ((v.server ≡ record s { vms = delete id s.vms }) × (v.writer ≡ response 204 []))
        ⊎ ((e : Error) × (v.server ≡ s)
            × (v.writer
                ≡ response 500 (
                    json.encode_map
                      ((lit "error", lit "failed to stop instance: " ++ error_text e) ∷ []))))

    -- What is served when Stop has returned, and what it leaves.
    pub stopped-Answered :
        (service : HypervisorDriver) (id : Text) (s : Server) (p : Result (Unit {0}) × Log)
        → Answered id s (stopped json service id s ready p)
          × ((stopped json service id s ready p).log ≡ p.1)
    unfolding stopped write_header
    stopped-Answered service id s (ok u, l) = (inl (refl, refl), refl)
    stopped-Answered service id s (err e, l) = (inr (e, refl, refl), refl)

    module _ (id : Text) (memory_mb : ℤ) (started : ℕ) (o : FirecrackerOrchestrator)
        (disk : Log → Text) (d : IsDisk h (overlay_path env id) disk) where
      abbrev deleting : Request → Server → Log → Served
      deleting r s l =
          serve_http json (firecracker_driver h f env (driver h f env bin kernel m)) token r s l
