-- ===== src/Network/Manager.antt =====
-- NewManager of pkg/network/network.go, on an operating system, runtime.GOOS.
use drover_runner.Base.{Text, lit, ◌==◌, if◌then◌else◌}
use drover_runner.Host.{Host}
use drover_runner.Network.{NetworkManager, mock_manager}
use drover_runner.Network.Linux.{linux_manager}

unfoldable pub new_manager : Host → (Text → Text) → Text → Text → Text → NetworkManager
new_manager h sha256 goos bridge_name bridge_ip =
    if goos == lit "linux"
    then linux_manager h sha256 (record { bridge_name = bridge_name; bridge_ip = bridge_ip })
    else mock_manager sha256
