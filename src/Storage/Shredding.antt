-- ===== src/Storage/Shredding.antt =====
-- ShredFile: what its success means, and what an error leaves behind.
use drover_runner.Base.{
  Text, lit, ℕ, suc, ◌+◌, ◌-◌, ◌/◌, ◌≤◌, ltb, Bool-cases, Option-cases, take, length, replicate,
  ◌∷◌, ◌≡◌, refl, ap, ◌∙◌, ◌⊎◌, inl, inr, arith, none, some, Option, length-replicate,
  replicate-append, take-replicate, drop-replicate, if◌then◌else◌,
}
use drover_runner.Host.{
  Host, Log, Event, Call, sync, seek_start, file_size, read_full, close, open_write, now, Result,
  ok, err, Error, remove, and_then, ignore, perform, context, pure, ◌>>=◌, ◌>>◌,
}
use drover_runner.Storage.{
  ShredRecord, read_sample, clock, closing, finish_shred, after_loop, shred_file, fill, hex, is_eof,
}
use drover_runner.Storage.Zeroing.{IsDisk, Zeroed, zero_loop-Zeroed}

-- The number of bytes of the sample.
abbrev pub sample_size : ℕ → ℕ
sample_size size = if ltb size 1024 then size else 1024

fill-zeroes : (j n : ℕ) → j ≤ n → fill (replicate j 0) (replicate n 0) ≡ replicate n 0
unfolding fill
fill-zeroes j n h =
    let zero_byte : ℕ = 0 in
    let e : j + (n - j) ≡ n = omega arith in
    rw (
      length-replicate j zero_byte,
      drop-replicate zero_byte j n,
      replicate-append zero_byte j (n - j),
      e,
    )

abbrev event : Call → Option Error → Event
event c f = record { call = c; fault = f }

module _ (h : Host) (path : Text) (disk : Log → Text) (d : IsDisk h path disk) where
  -- From a zeroed file the sample is zeroed, however much of it is read.
  sample-zeroes :
      (size n : ℕ) (l : Log)
      → disk l ≡ replicate size 0
      → n ≤ size
      → fill (h.bytes l (read_full path n)) (replicate n 0) ≡ replicate n 0
  sample-zeroes size n l e fits =
      let got : ℕ = length (h.bytes l (read_full path n)) in
      let read : h.bytes l (read_full path n) ≡ replicate got 0 =
        d.read_prefix l n
        ∙ ap (take got) e
        ∙ take-replicate 0 got size (omega (arith, d.read_bound l n)) in
      ap (λ s. fill s (replicate n 0)) read ∙ fill-zeroes got n (d.read_bound l n)

  read_sample-zeroes :
      (size n : ℕ) (l : Log)
      → disk l ≡ replicate size 0
      → n ≤ size
      → ((f : Option Error) × (read_sample h path n l
            ≡ (ok (replicate n 0), event (read_full path n) f ∷ l)))
        ⊎ ((e : Error) × ((read_sample h path n l).0 ≡ err e))
  unfolding read_sample
  read_sample-zeroes size n l e fits = elim (Option-cases (h.fault l (read_full path n))) [
    | inl good ↦
        rw (read_sample, good)
          (inl (h.fault l (read_full path n), rw (sample-zeroes size n l e fits)))
    | inr (cause, bad) ↦ elim (Bool-cases (is_eof cause)) [
      | inl short ↦
          rw (read_sample, bad, short)
            (inl (h.fault l (read_full path n), rw (sample-zeroes size n l e fits)))
      | inr other ↦ rw (read_sample, bad, other) (inr (_, refl))
    ]
  ]

  -- The log of a file that was flushed, sampled, closed and then unlinked, after `zeroed`.
  abbrev pub unlinked : ℕ → Option Error → Option Error → Log → Log
  unlinked size f g zeroed =
      event (remove path) none
      ∷ event (close path) g
      ∷ event (read_full path (sample_size size)) f
      ∷ event (seek_start path) none
      ∷ event (sync path) none
      ∷ zeroed

  module _ (sha256 : Text → Text) where
    -- The record of a file of `size` bytes that was shredded.
    abbrev pub IsRecord : ℕ → ShredRecord → Type 0
    IsRecord size r =
        (r.file_path ≡ path)
        × (r.bytes_purged ≡ size)
        × (r.sanitized_hash ≡ hex (sha256 (replicate (sample_size size) 0)))

    -- Success with a record, or an error.
    abbrev Finished : ℕ → Log → Result ShredRecord × Log → Type 0
    Finished size l p =
        ((r : ShredRecord) × (f : Option Error) × (g : Option Error) × (p
            ≡ (ok r, event now none ∷ unlinked size f g l))
          × IsRecord size r)
        ⊎ ((e : Error) × (p.0 ≡ err e))

    abbrev sought_log : Log → Log
    sought_log l = event (seek_start path) none ∷ event (sync path) none ∷ l

    -- The steps after the sample.
    abbrev after_sample : ℕ → ℕ → Result Text × Log → Result ShredRecord × Log
    after_sample started size p = and_then p λ sample.
        ignore (perform h (close path))
        >> (context (perform h (remove path)) (lit "failed to delete file pointer")
            >> (clock h >>= λ stopped. pure (record {
              file_path = path;
              bytes_purged = size;
              sanitized_hash = hex (sha256 sample);
              duration_ms = (stopped - started) / 1000000;
            })))

    after_sample-Finished :
        (started size : ℕ) (l : Log) (p : Result Text × Log)
        → ((f : Option Error) × (p ≡ (
          ok (replicate (sample_size size) 0),
          event (read_full path (sample_size size)) f ∷ sought_log l,
        )))
          ⊎ ((e : Error) × (p.0 ≡ err e))
        → Finished size l (after_sample started size p)
    after_sample-Finished started size l p (inr (e, bad)) = rw bad (inr (e, refl))
    after_sample-Finished started size l p (inl (f, good)) =
        rw good
          (elim (Option-cases (
            h.fault
              (event (close path) (
                  h.fault (event (read_full path (sample_size size)) f ∷ sought_log l) (close path))
                ∷ event (read_full path (sample_size size)) f
                ∷ sought_log l)
              (remove path))) [
                | inl removed ↦ rw removed (inl (_, f, _, refl, (refl, refl, refl)))
                | inr (cause, bad) ↦ rw bad (inr (_, refl))
              ])

    finish_shred-Finished :
        (started size : ℕ) (l : Log)
        → disk l ≡ replicate size 0
        → Finished size l (finish_shred h sha256 path started size l)
    unfolding finish_shred
    finish_shred-Finished started size l e = elim (Option-cases (h.fault l (sync path))) [
      | inr (cause, bad) ↦ rw bad (inr (_, refl))
      | inl synced ↦ elim (Option-cases (h.fault (event (sync path) none ∷ l) (seek_start path))) [
        | inr (cause, bad) ↦ rw (synced, bad) (inr (_, refl))
        | inl sought ↦
            rw (synced, sought)
              (after_sample-Finished started size l _ (
                read_sample-zeroes size (sample_size size)
                  (event (seek_start path) none ∷ event (sync path) none ∷ l)
                  (d.quiet _ (seek_start path) none refl ∙ d.quiet l (sync path) none refl ∙ e)
                  (ground arith)))
      ]
    ]

    -- ShredFile from the log `l` succeeded on a file whose bytes `zeroed` left all zero, and then
    -- unlinked it.
    abbrev pub Purged : Log → Result (Option ShredRecord) × Log → Type 0
    Purged l p =
        (r : ShredRecord) × (zeroed : Log) × (f : Option Error) × (g : Option Error) × (k : Option
          Error)
        × (p.0 ≡ ok (some r))
        × (p.1 ≡ event (close path) k ∷ event now none ∷ unlinked (length (disk l)) f g zeroed)
        × (disk zeroed ≡ replicate (length (disk l)) 0)
        × IsRecord (length (disk l)) r

    -- The same, or it reports an error.
    abbrev pub Shredded : Log → Result (Option ShredRecord) × Log → Type 0
    Shredded l p = Purged l p ⊎ ((e : Error) × (p.0 ≡ err e))

    abbrev opened : Log → Log
    opened l = event (open_write path) none ∷ event now none ∷ l

    disk-opened : (l : Log) → disk (opened l) ≡ disk l
    disk-opened l = d.quiet _ (open_write path) none refl ∙ d.quiet l now none refl

    abbrev after_zeroing :
        ℕ → ℕ → Result (Option (Unit {0})) × Log → Result (Option ShredRecord) × Log
    after_zeroing started size p = and_then p (after_loop h sha256 path started size)

    after_finish-Shredded :
        (l zeroed : Log) (size : ℕ) (p : Result ShredRecord × Log)
        → length (disk l) ≡ size
        → disk zeroed ≡ replicate size 0
        → Finished size zeroed p
        → Shredded l (closing h path (λ _. and_then p (λ r. pure (some r))) l)
    after_finish-Shredded l zeroed size p n e (inr (bad, failed)) = rw failed (inr (bad, refl))
    after_finish-Shredded l zeroed size p n e (inl (r, f, g, done, recorded)) =
        rw (done, n) (inl (r, zeroed, f, g, _, refl, refl, e, recorded))

    after_zeroing-Shredded :
        (l : Log) (started size : ℕ) (p : Result (Option (Unit {0})) × Log)
        → length (disk l) ≡ size
        → Zeroed disk size p
        → Shredded l (closing h path (λ _. after_zeroing started size p) l)
    unfolding after_loop
    after_zeroing-Shredded l started size p n (inr (e, bad)) = rw bad (inr (e, refl))
    after_zeroing-Shredded l started size p n (inl (done, zeroes)) = rw done (
        after_finish-Shredded l p.1 size _ n zeroes (finish_shred-Finished started size p.1 zeroes))

    -- On a file system that behaves as documented ShredFile ends. Either it reports an error, or
    -- all bytes of the file were overwritten by zeroes and flushed before the file was unlinked,
    -- and its record names the file, its size and the checksum of a sample of zeroes.
    pub shred_file-Shredded : (l : Log) → Shredded l (shred_file h sha256 path l)
    unfolding shred_file
    shred_file-Shredded l = elim (Option-cases (h.fault (event now none ∷ l) (open_write path))) [
      | inr (cause, bad) ↦ rw bad (inr (_, refl))
      | inl good ↦ elim (Option-cases (h.fault (opened l) (file_size path))) [
        | inr (cause, bad) ↦ rw (good, bad) (inr (_, refl))
        | inl known ↦
            rw (good, known, d.sized (opened l) known, disk-opened l)
              (after_zeroing-Shredded l _ (length (disk l)) _ refl (
                zero_loop-Zeroed h path disk d (suc (length (disk l))) (length (disk l)) 0 (disk l)
                  (event (file_size path) none ∷ opened l)
                  (d.quiet (opened l) (file_size path) none refl ∙ disk-opened l) (omega arith)
                  (omega arith)))
      ]
    ]
