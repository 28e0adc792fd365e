-- ===== src/Kraft.antt =====
-- pkg/kraft: the parts of the wrapper of the kraft program.
pub mod Exec
pub mod Launcher
pub mod Kraftfile
use drover_runner.Base.{Text, lit, ◌==◌, [], if◌then◌else◌}

pub record Kraft : Type 0 where
  pub binary : Text
  pub log_level : Text

unfoldable pub new_kraft : Kraft
new_kraft = record { binary = lit "kraft"; log_level = [] }

-- The binary to run: kraft of the PATH if none is given.
unfoldable pub binary_of : Kraft → Text
binary_of k = if k.binary == [] then lit "kraft" else k.binary
