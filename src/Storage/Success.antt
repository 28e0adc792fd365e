-- ===== src/Storage/Success.antt =====
-- ShredFile on a host where no call fails.
use drover_runner.Base.{
  ◌∷◌, if◌then◌else◌, replicate, Text, ℕ, zero, suc, ◌+◌, ◌≤◌, ◌<◌, ltb, ltb→lt, Bool-cases, Option,
  none, some, ◌≡◌, refl, inl, inr, arith,
}
use drover_runner.Host.{
  Host, Log, Call, sync, seek_start, read_full, open_write, file_size, now, and_then, Result, ok,
}
use drover_runner.Storage.{
  ShredRecord, fill, block, zero_loop, read_sample, finish_shred, after_loop, shred_file,
}
use drover_runner.Storage.Zeroing.{IsDisk, block_bounds}

module _ (h : Host) (path : Text) (disk : Log → Text) (d : IsDisk h path disk)
    (good : (l : Log) (c : Call) → h.fault l c ≡ none) where
  zero_loop-ok :
      (fuel size k : ℕ) (l : Log)
      → k ≤ size
      → size < fuel + k
      → (zero_loop h fuel path size k l).0 ≡ ok (some tt)
  unfolding zero_loop
  zero_loop-ok zero size k l e f = absurd (omega arith)
  zero_loop-ok (suc fuel) size k l e f = elim (Bool-cases (ltb k size)) [
    | inr done ↦ rw done
    | inl more ↦
        let b = block_bounds size k (ltb→lt k size more) in
        rw (more, good, good, d.full_write _ k (block size k) (good _ _))
          (zero_loop-ok fuel size (k + block size k) _ (omega (arith, b)) (omega (arith, b)))
  ]

  read_sample-ok :
      (n : ℕ) (l : Log) → (sample : Text) × (l' : Log) × (read_sample h path n l ≡ (ok sample, l'))
  unfolding read_sample
  read_sample-ok n l = (
    fill (h.bytes l (read_full path n)) (replicate n 0),
    record { call = read_full path n; fault = h.fault l (read_full path n) } ∷ l,
    ground (arith, good l (read_full path n)),
  )

  module _ (sha256 : Text → Text) where
    finish_shred-ok :
        (started size : ℕ) (l : Log)
        → (r : ShredRecord) × (l' : Log) × (finish_shred h sha256 path started size l ≡ (ok r, l'))
    unfolding finish_shred
    finish_shred-ok started size l =
        let flushed : Log = record { call = sync path; fault = none } ∷ l in
        let sought : Log = record { call = seek_start path; fault = none } ∷ flushed in
        let (sample, l', e) = read_sample-ok (if ltb size 1024 then size else 1024) sought in
        rw (good, good, e, good, good) (_, _, refl)

    after_loop-ok :
        (started size : ℕ) (p : Result (Option (Unit {0})) × Log)
        → p.0 ≡ ok (some tt)
        → (r : ShredRecord) × ((and_then p (after_loop h sha256 path started size)).0 ≡ ok (some r))
    unfolding after_loop
    after_loop-ok started size p done =
        let (r, l', e) = finish_shred-ok started size p.1 in
        (r, rw (done, and_then, after_loop, e) refl)

    -- On a file system that behaves as documented, where no call fails, ShredFile succeeds.
    pub shred_file-succeeds :
        (l : Log) → (r : ShredRecord) × ((shred_file h sha256 path l).0 ≡ ok (some r))
    unfolding shred_file
    shred_file-succeeds l =
        let opened : Log =
          record { call = open_write path; fault = none }
          ∷ record { call = now; fault = none }
          ∷ l in
        let size : ℕ = h.number opened (file_size path) in
        let sized : Log = record { call = file_size path; fault = none } ∷ opened in
        rw (good, good)
          (after_loop-ok (h.number l now) size (zero_loop h (suc size) path size 0 sized)
            (zero_loop-ok (suc size) size 0 sized (omega arith) (omega arith)))
