-- ===== src/Firecracker/Process.antt =====
-- The firecracker process: what StartProcess and Stop leave running.
use drover_runner.Base.{Text, ℕ, zero, suc, List, Bool, ◌≡◌, refl, arith}
use drover_runner.Host.{Host, Log, stat, sleep, perform, ignore}
use drover_runner.Host.Ledger.{held, is_start, is_stopped}
use drover_runner.Firecracker.{Formats, await_socket}

-- A process of the command was started and was sent no signal since.
unfoldable pub process_held : List Text → Log → Bool
unfolding held is_start is_stopped
process_held args = held (is_start args) (is_stopped args)

module _ (h : Host) (f : Formats) where
  -- Waiting for the socket leaves the processes alone.
  process_held-await_socket :
      (n : ℕ) (args : List Text) (socket : Text) (l : Log)
      → process_held args (await_socket h f n socket l).1 ≡ process_held args l
  unfolding process_held await_socket
  process_held-await_socket zero args socket l = refl
  process_held-await_socket (suc n) args socket l = ground (
    arith,
    process_held-await_socket n args socket
        (ignore (perform h (sleep 100)) (perform h (stat socket) l).1).1,
  )
