-- ===== src/Examples/Hosts.antt =====
-- Hosts on which every call succeeds, or all but one, and the parameters of the drivers.
use drover_runner.Base.{Text, lit, [], ◌∷◌, none, some, if◌then◌else◌, ℕ, Bool, true, false}
use drover_runner.Host.{Host, Call, Error, foreign, put, start, copy_into, ok}
use drover_runner.Network.Linux.{LinuxNetworkManager}
use drover_runner.Firecracker.{Formats}
use drover_runner.Daemon.Drivers.{Env}

-- Statuses are 204; everything else that is asked for is 0 or empty.
abbrev answer_number : Call → ℕ
answer_number (put s p b) = 204
answer_number _ = 0

abbrev pub broken : Error
broken = foreign (lit "broken")

abbrev pub host_with : (Call → Bool) → Host
host_with breaks = record {
  fault = λ l c. if breaks c then some broken else none;
  number = λ l c. answer_number c;
  bytes = λ l c. [];
  chunks = λ l args. [];
}

abbrev pub good_host : Host
good_host = host_with (λ c. false)

abbrev is_copy : Call → Bool
is_copy (copy_into s d) = true
is_copy _ = false

abbrev pub full_disk : Host
full_disk = host_with is_copy

abbrev is_spawn : Call → Bool
is_spawn (start args) = true
is_spawn _ = false

-- A host with no firecracker binary.
abbrev pub no_binary : Host
no_binary = host_with is_spawn

abbrev pub checksum : Text → Text
checksum t = 1 ∷ 2 ∷ 3 ∷ 4 ∷ []

abbrev pub formats : Formats
formats = record { marshal = λ p. ok (lit "{}"); quote = λ t. t; show_response = λ t. t }

abbrev pub env : Env
env = record { temp_file = λ t. t; sha256 = checksum; marshal = λ a. ok (lit "{}") }

abbrev pub bridge : LinuxNetworkManager
bridge = record { bridge_name = lit "dvr-br0"; bridge_ip = lit "172.20.0.1/16" }
