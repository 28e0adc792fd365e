-- ===== src/Network.antt =====
-- pkg/network/network.go: the interface NetworkManager, the names of TAP devices, MAC addresses
-- and the two implementations, with `sha256` as a parameter.
pub mod Linux
pub mod Names
pub mod Allocation
pub mod Plan
pub mod Subnet
pub mod Manager
use drover_runner.Base.{
  Text, ◌++◌, lit, ℕ, zero, suc, ◌+◌, ◌/◌, ◌%◌, length, take, ltb, if◌then◌else◌, List, [], ◌∷◌,
}
use drover_runner.Host.{Host, M, pure}

pub record NetworkManager : Type 0 where
  pub setup_bridge : M (Unit {0})
  pub allocate_tap : Text → M (Text × Text)
  pub release_tap : Text → M (Unit {0})

-- Linux interface names must be 15 chars or less.
unfoldable pub tap_name : Text → Text
tap_name id = let full = lit "dvr-t-" ++ id in if ltb 15 (length full) then take 15 full else full

-- One digit of %x.
unfoldable pub hex_digit : ℕ → ℕ
hex_digit n = if ltb n 10 then n + 48 else n + 87

-- %02x of a byte.
unfoldable pub hex_byte : ℕ → Text
unfolding hex_digit
hex_byte b = hex_digit (b / 16) ∷ hex_digit (b % 16) ∷ []

-- The byte of the checksum at an index, which is in range: a sum has 32 bytes.
unfoldable pub sum_at : Text → ℕ → ℕ
sum_at [] i = 0
sum_at (b ∷ bs) zero = b
sum_at (b ∷ bs) (suc i) = sum_at bs i

unfoldable pub generate_mac : (Text → Text) → Text → Text
unfolding hex_byte sum_at
generate_mac sha256 id =
    let sum = sha256 id in
    lit "06:00:"
    ++ hex_byte (sum_at sum 0)
    ++ lit ":"
    ++ hex_byte (sum_at sum 1)
    ++ lit ":"
    ++ hex_byte (sum_at sum 2)
    ++ lit ":"
    ++ hex_byte (sum_at sum 3)

-- mockNetworkManager, whose operations only print: it reports names and always succeeds.
unfoldable pub mock_manager : (Text → Text) → NetworkManager
unfolding tap_name generate_mac
mock_manager sha256 = record {
  setup_bridge = pure tt;
  allocate_tap = λ id. pure (tap_name id, generate_mac sha256 id);
  release_tap = λ id. pure tt;
}
