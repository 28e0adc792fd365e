-- ===== src/Storage.antt =====
-- pkg/storage: the shredding of a file (purge.go) and its audit (audit.go). The checksum, `sha256`,
-- and the JSON text of an audit, `marshal`, are parameters.
pub mod Zeroing
pub mod Shredding
pub mod Success
pub mod Handles
pub mod Frame
use drover_runner.Base.{
  Text, ◌++◌, lit, ℕ, zero, suc, ◌+◌, ◌-◌, ◌*◌, ◌/◌, ltb, if◌then◌else◌, take, drop, decimal,
  length, List, [], ◌∷◌, replicate, Bool, true, false, ◌==◌, ◌||◌, ◌≡◌, Option, none, some,
}
use drover_runner.Base.Int.{ℤ}
use drover_runner.Host.{
  Host, M, pure, context, ignore, perform, ask_number, ask_bytes, Error, Result, ok, err, foreign,
  open_write, file_size, write_zeroes, sync, seek_start, read_full, close, remove, poll_done, now,
  print, ◌>>=◌, ◌>>◌, Log, wrap,
}
use drover_runner.Network.{hex_byte}

pub record ShredRecord : Type 0 where
  pub file_path : Text
  pub bytes_purged : ℕ
  pub sanitized_hash : Text
  pub duration_ms : ℕ

-- Uptime in nanoseconds, and the time in nanoseconds.
pub record DestructionAudit : Type 0 where
  pub instance_id : Text
  pub uptime : ℕ
  pub allocated_ram : ℤ
  pub overlay_path : Text
  pub shred_stats : ShredRecord
  pub timestamp : ℕ

abbrev pub block_size : ℕ
block_size = 64 * 1024

-- %x of a checksum.
unfoldable pub hex : Text → Text
unfolding hex_byte
hex [] = []
hex (b ∷ bs) = hex_byte b ++ hex bs

-- toWrite: what is left, in blocks of 64KB.
unfoldable pub block : ℕ → ℕ → ℕ
block size written = if ltb block_size (size - written) then block_size else size - written

-- io.EOF and io.ErrUnexpectedEOF, which end the reading of the sample without a failure.
unfoldable pub is_eof : Error → Bool
is_eof (foreign t) = t == lit "EOF" || t == lit "unexpected EOF"
is_eof _ = false

-- A buffer whose front holds the bytes that were read.
unfoldable pub fill : Text → Text → Text
fill got buf = got ++ drop (length got) buf

module _ (h : Host) where
  -- time.Now(), which does not fail.
  abbrev pub clock : M ℕ
  clock l = (ok (h.number l now), record { call = now; fault = none } ∷ l)

  -- The loop `for bytesWritten < size`, with fuel for its rounds: `none` means that it ran out. A
  -- context that is done answers `poll_done` with its error.
  unfoldable pub zero_loop : ℕ → Text → ℕ → ℕ → M (Option (Unit {0}))
  unfolding block
  zero_loop zero path size written = pure none
  zero_loop (suc fuel) path size written =
      let round : M (Option (Unit {0})) =
        perform h poll_done
        >> context (ask_number h (write_zeroes path written (block size written)))
            (lit "failed during zero write phase at offset " ++ decimal written)
        >>= λ n. zero_loop fuel path size (written + n) in
      if ltb written size then round else pure (some tt)

  -- The sample, a buffer of zeroes that io.ReadFull fills as far as it gets.
  unfoldable pub read_sample : Text → ℕ → M Text
  unfolding is_eof fill
  read_sample path n l =
      let zeroes : Text = replicate n 0 in
      let got = h.bytes l (read_full path n) in
      let f = h.fault l (read_full path n) in
      let l' : Log = record { call = read_full path n; fault = f } ∷ l in
      elim f [
        | none ↦ (ok (fill got zeroes), l')
        | some e ↦
            if is_eof e
            then (ok (fill got zeroes), l')
            else (err (wrap (lit "failed to read verification sample") e), l')
      ]

  -- `defer file.Close()`
  abbrev pub closing {ℓ} : {A : Type ℓ} → Text → M A → M A
  closing path m l = ((m l).0, (ignore (perform h (close path)) (m l).1).1)

  module _ (sha256 : Text → Text) where
    -- What follows the loop.
    unfoldable pub finish_shred : Text → ℕ → ℕ → M ShredRecord
    unfolding hex
    finish_shred path started size = do
      context (perform h (sync path)) (lit "failed physical storage sync")
      context (perform h (seek_start path)) (lit "failed seek during verification")
      sample ← read_sample path (if ltb size 1024 then size else 1024)
      ignore (perform h (close path))
      context (perform h (remove path)) (lit "failed to delete file pointer")
      stopped ← clock
      pure (record {
        file_path = path;
        bytes_purged = size;
        sanitized_hash = hex (sha256 sample);
        duration_ms = (stopped - started) / 1000000;
      })

    unfoldable pub after_loop : Text → ℕ → ℕ → Option (Unit {0}) → M (Option ShredRecord)
    unfolding finish_shred
    after_loop path started size none = pure none
    after_loop path started size (some _) = do r ← finish_shred path started size; pure (some r)

    -- The work on the open file. A round writes something, so `size` rounds are enough.
    unfoldable pub shred_open : Text → ℕ → M (Option ShredRecord)
    unfolding after_loop
    shred_open path started = do
      size ← context (ask_number h (file_size path)) (lit "failed to stat file for size")
      written ← zero_loop (suc size) path size 0
      after_loop path started size written

    -- ShredFile; `none` as its result means that the loop ran out of fuel.
    unfoldable pub shred_file : Text → M (Option ShredRecord)
    unfolding shred_open
    shred_file path = do
      started ← clock
      context (perform h (open_write path)) (lit "failed to open file for shredding")
      closing path (shred_open path started)

-- The bytes of the lock that begins the line.
abbrev pub lock_sign : Text
lock_sign = 240 ∷ 159 ∷ 148 ∷ 146 ∷ []

-- RegisterAudit
unfoldable pub register_audit :
    Host → (DestructionAudit → Result Text) → DestructionAudit → M (Unit {0})
register_audit h marshal audit = do
  payload ← context (λ l. (marshal audit, l)) (lit "failed to marshal audit trail")
  ignore (perform h (print (lock_sign ++ (lit " [Audit-Log] DESTRUCTION AUDIT: " ++ payload))))
