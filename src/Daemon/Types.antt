-- ===== src/Daemon/Types.antt =====
-- The types of pkg/daemon that the server and the drivers share.
use drover_runner.Base.{Text, List}
use drover_runner.Base.Int.{ℤ}
use drover_runner.Host.{M}

pub record VmConfig : Type 0 where
  pub image_name : Text
  pub env : List (Text × Text)
  pub memory_mb : ℤ

pub record VmInstance : Type 0 where
  pub id : Text
  pub state : Text
  pub ip : Text

-- The control handle of a running guest.
pub record ActiveVm : Type 0 where
  pub id : Text
  pub ip : Text
  pub state : Text
  pub stop : M (Unit {0})
  pub logs : M Text

-- The interface HypervisorDriver: an id, an image, megabytes of memory and the environment.
pub record HypervisorDriver : Type 0 where
  pub launch_vm : Text → Text → ℤ → List (Text × Text) → M ActiveVm
