-- ===== src/Storage/Zeroing.antt =====
-- The loop of ShredFile over a file system that behaves as documented.
use drover_runner.Base.{
  Text, ◌++◌, ℕ, zero, suc, ◌+◌, ◌≤◌, ◌<◌, ltb, ltb→lt, ltb→ge, Bool-cases, Option-cases, take,
  drop, length, replicate, [], ◌∷◌, Bool, true, false, ◌≡◌, refl, ap, ◌∙◌, ◌⊎◌, inl, inr, arith,
  none, some, Option, length-drop, replicate-append, take-replicate-append, drop-replicate-append,
  length-eq-zero, append-nil,
}
use drover_runner.Host.{
  Host, Log, Call, poll_done, sync, seek_start, file_size, read_full, close, open_write, now,
  write_zeroes, Result, ok, err, Error, remove,
}
use drover_runner.Storage.{block, zero_loop}

-- `n` zeroes written at an offset within the bytes.
abbrev pub overwrite : ℕ → ℕ → Text → Text
overwrite offset n c = take offset c ++ replicate n 0 ++ drop (offset + n) c

-- The calls of ShredFile that leave the bytes of the file alone.
abbrev pub is_quiet : Call → Bool
is_quiet poll_done = true
is_quiet (sync p) = true
is_quiet (seek_start p) = true
is_quiet (file_size p) = true
is_quiet (read_full p n) = true
is_quiet (close p) = true
is_quiet (open_write p) = true
is_quiet (remove p) = true
is_quiet now = true
is_quiet _ = false

-- What package os documents of a file: `disk` gives the bytes that stand on the disk after the
-- calls of a log. Stat tells their number; Write, if it reports no error, has written all that it
-- was given; a read gives bytes of the file from its start; of a failed Write nothing is said.
pub record IsDisk (h : Host) (path : Text) (disk : Log → Text) : Type 0 where
  pub sized :
      (l : Log) → h.fault l (file_size path) ≡ none → h.number l (file_size path) ≡ length (disk l)
  pub full_write :
      (l : Log) (offset n : ℕ)
      → h.fault l (write_zeroes path offset n) ≡ none
      → h.number l (write_zeroes path offset n) ≡ n
  pub written :
      (l : Log) (offset n : ℕ)
      → h.fault l (write_zeroes path offset n) ≡ none
      → disk (record { call = write_zeroes path offset n; fault = none } ∷ l)
        ≡ overwrite offset n (disk l)
  pub quiet :
      (l : Log) (c : Call) (f : Option Error)
      → is_quiet c ≡ true
      → disk (record { call = c; fault = f } ∷ l) ≡ disk l
  pub read_prefix :
      (l : Log) (n : ℕ)
      → h.bytes l (read_full path n) ≡ take (length (h.bytes l (read_full path n))) (disk l)
  pub read_bound : (l : Log) (n : ℕ) → length (h.bytes l (read_full path n)) ≤ n

overwrite-zeroes :
    (k n : ℕ) (r : Text) → overwrite k n (replicate k 0 ++ r) ≡ replicate (k + n) 0 ++ drop n r
overwrite-zeroes k n r =
    let zero_byte : ℕ = 0 in
    rw (
      take-replicate-append zero_byte k r,
      drop-replicate-append zero_byte k n r,
      replicate-append zero_byte k n,
    )

pub block_bounds : (size k : ℕ) → k < size → (0 < block size k) × (k + block size k ≤ size)
unfolding block
block_bounds size k h = ground arith

-- What the loop leaves: the file is zeroed over its whole length, or an error is reported.
abbrev pub Zeroed : (Log → Text) → ℕ → Result (Option (Unit {0})) × Log → Type 0
Zeroed disk size r =
    ((r.0 ≡ ok (some tt)) × (disk r.1 ≡ replicate size 0)) ⊎ ((e : Error) × (r.0 ≡ err e))

module _ (h : Host) (path : Text) (disk : Log → Text) (d : IsDisk h path disk) where
  abbrev polled : Log → Log
  polled l = record { call = poll_done; fault = none } ∷ l

  abbrev wrote : ℕ → ℕ → Log → Log
  wrote offset n l = record { call = write_zeroes path offset n; fault = none } ∷ l

  disk-wrote :
      (k n : ℕ) (r : Text) (l : Log)
      → disk l ≡ replicate k 0 ++ r
      → h.fault (polled l) (write_zeroes path k n) ≡ none
      → disk (wrote k n (polled l)) ≡ replicate (k + n) 0 ++ drop n r
  disk-wrote k n r l e good =
      d.written (polled l) k n good
      ∙ ap (overwrite k n) (d.quiet l poll_done none refl ∙ e)
      ∙ overwrite-zeroes k n r

  -- With the first `k` bytes zeroed and fuel for the others, the loop zeroes all or fails.
  pub zero_loop-Zeroed :
      (fuel size k : ℕ) (r : Text) (l : Log)
      → disk l ≡ replicate k 0 ++ r
      → length r + k ≡ size
      → size < fuel + k
      → Zeroed disk size (zero_loop h fuel path size k l)
  unfolding zero_loop
  zero_loop-Zeroed zero size k r l e n f = absurd (omega arith)
  zero_loop-Zeroed (suc fuel) size k r l e n f = elim (Bool-cases (ltb k size)) [
    | inr done ↦
        let empty : r ≡ [] = length-eq-zero r (omega (arith, ltb→ge k size done)) in
        rw done (
          inl (
            refl,
            e
                ∙ ap (λ s. replicate k 0 ++ s) empty
                ∙ append-nil (replicate k 0)
                ∙ ap (λ m. replicate m 0) (omega (arith, ltb→ge k size done, ap length empty)),
          ))
    | inl more ↦ elim (Option-cases (h.fault l poll_done)) [
      | inr (cause, cancelled) ↦ rw (more, cancelled) (inr (cause, refl))
      | inl going ↦ elim (Option-cases (h.fault (polled l) (write_zeroes path k (block size k)))) [
        | inr (cause, bad) ↦ rw (more, going, bad) (inr (_, refl))
        | inl good ↦
            let b = block_bounds size k (ltb→lt k size more) in
            rw (more, going, good, d.full_write (polled l) k (block size k) good)
              (zero_loop-Zeroed fuel size (k + block size k) (drop (block size k) r)
                (wrote k (block size k) (polled l)) (disk-wrote k (block size k) r l e good)
                (omega (arith, length-drop (block size k) r, b)) (omega (arith, b)))
      ]
    ]
  ]
