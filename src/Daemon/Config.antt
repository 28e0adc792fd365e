-- ===== src/Daemon/Config.antt =====
-- pkg/daemon/config.go. A duration is in nanoseconds.
use drover_runner.Base.{Text, lit, [], ◌*◌, ◌^◌}
use drover_runner.Base.Int.{ℤ, pos}

abbrev pub ten_seconds : ℤ
ten_seconds = pos (10 * 10 ^ 9)

pub record Config : Type 0 where
  pub port : ℤ
  pub auth_token : Text
  pub hypervisor_mode : Text
  pub kernel_path : Text
  pub telemetry_secs : ℤ

unfoldable pub default_config : Config
default_config = record {
  port = pos 8080;
  auth_token = lit "dvr-admin-token";
  hypervisor_mode = lit "qemu";
  kernel_path = [];
  telemetry_secs = ten_seconds;
}
