-- ===== src/Daemon/Drivers.antt =====
-- pkg/daemon/driver.go: what the two drivers share. `temp_file` is filepath.Join(os.TempDir(), ...),
-- `marshal` the JSON text of an audit.
pub mod Qemu
pub mod Audits
pub mod Firecracker
use drover_runner.Base.{Text, ◌++◌, lit, List, [], ◌∷◌, Option, none, some, ℕ, ◌-◌, Bool}
use drover_runner.Base.Int.{ℤ}
use drover_runner.Host.{
  Host, M, pure, ignore, perform, Result, ok, err, Error, error_text, print, open_read, create,
  copy_into, sync, ◌>>=◌, ◌>>◌, Log,
}
use drover_runner.Storage.{
  ShredRecord, DestructionAudit, clock, closing, shred_file, register_audit,
}

pub record Env : Type 0 where
  pub temp_file : Text → Text
  pub sha256 : Text → Text
  pub marshal : DestructionAudit → Result Text

-- safeBufferWriter.Write, under its lock.
unfoldable pub buffer_write : Text → Text → Text
buffer_write buf p = buf ++ p

unfoldable pub buffer : Text → List Text → Text
unfolding buffer_write
buffer buf [] = buf
buffer buf (p ∷ ps) = buffer (buffer_write buf p) ps

-- The bytes of the sign that begins the line.
abbrev warning_sign : Text
warning_sign = 226 ∷ 154 ∷ 160 ∷ 239 ∷ 184 ∷ 143 ∷ []

abbrev pub shred_error : Error → Text
shred_error e =
    warning_sign ++ (lit "  [shred-error] Failed to shred overlay disk: " ++ error_text e)

module _ (h : Host) where
  -- logBuf.String(), for the process of a command.
  unfoldable pub read_logs : List Text → M Text
  unfolding buffer
  read_logs args l = (ok (buffer [] (h.chunks l args)), l)

  unfoldable pub copy_file : Text → Text → M (Unit {0})
  copy_file src dst =
      perform h (open_read src)
      >> closing h src (
          perform h (create dst)
          >> closing h dst (perform h (copy_into src dst) >> perform h (sync dst)))

  module _ (env : Env) where
    -- The audit of a shredding that succeeded; the error of one that failed is printed only. Without
    -- a result the loop of ShredFile would have run out of fuel.
    unfoldable pub audit_shred : Text → ℤ → Text → ℕ → Result (Option ShredRecord) → M (Unit {0})
    unfolding register_audit
    audit_shred id memory_mb overlay started (err e) = ignore (perform h (print (shred_error e)))
    audit_shred id memory_mb overlay started (ok none) = pure tt
    audit_shred id memory_mb overlay started (ok (some stats)) = do
      stopped ← clock h
      timestamp ← clock h
      ignore (
          register_audit h env.marshal (record {
            instance_id = id;
            uptime = stopped - started;
            allocated_ram = memory_mb;
            overlay_path = overlay;
            shred_stats = stats;
            timestamp = timestamp;
          }))
