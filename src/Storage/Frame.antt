-- ===== src/Storage/Frame.antt =====
-- What ShredFile leaves alone: a resource that none of its calls makes.
use drover_runner.Base.{
  Text, lit, ℕ, zero, suc, Bool, false, Option, none, some, ◌≡◌, refl, ◌∷◌, ◌+◌, ltb, if◌then◌else◌,
  arith,
}
use drover_runner.Host.{
  Host, Log, Call, M, context, ask_number, pure, write_zeroes, sync, seek_start, now, remove, close,
  open_write, file_size, poll_done, read_full, ◌>>=◌,
}
use drover_runner.Host.Ledger.{held}
use drover_runner.Host.Shrinks.{
  Shrinks, Shrinks-perform, Shrinks-ask, Shrinks-bind, Shrinks-on_error, is_maker,
}
use drover_runner.Storage.{
  block, zero_loop, read_sample, closing, finish_shred, after_loop, shred_open, shred_file,
}

module _ (makes frees : Call → Bool) (idle : (c : Call) → is_maker c ≡ false → makes c ≡ false)
    (h : Host) where
  abbrev Keeps : {A : Type 0} → M A → Type 0
  Keeps = Shrinks makes frees

  Shrinks-closing : {A : Type 0} (path : Text) (m : M A) → Keeps m → Keeps (closing h path m)
  Shrinks-closing path m s l k =
      s l (Shrinks-perform makes frees h (close path) (idle (close path) refl) (m l).1 k)

  Shrinks-zero_loop :
      (fuel : ℕ) (path : Text) (size written : ℕ) → Keeps (zero_loop h fuel path size written)
  unfolding zero_loop held
  Shrinks-zero_loop zero path size written l k = k
  Shrinks-zero_loop (suc fuel) path size written l k =
      let polled : Log = record { call = poll_done; fault = none } ∷ l in
      let zeroes = write_zeroes path written (block size written) in
      let wrote : Log = record { call = zeroes; fault = none } ∷ polled in
      ground (
        arith,
        Shrinks-zero_loop fuel path size (written + h.number polled zeroes) wrote,
        idle poll_done refl,
        idle zeroes refl,
      )

  Shrinks-read_sample : (path : Text) (n : ℕ) → Keeps (read_sample h path n)
  unfolding read_sample held
  Shrinks-read_sample path n l k = ground (arith, idle (read_full path n) refl)

  module _ (sha256 : Text → Text) (path : Text) where
    Shrinks-finish : (started size : ℕ) → Keeps (finish_shred h sha256 path started size)
    unfolding finish_shred held
    Shrinks-finish started size l k =
        let n = if ltb size 1024 then size else 1024 in
        let synced : Log = record { call = sync path; fault = none } ∷ l in
        let sought : Log = record { call = seek_start path; fault = none } ∷ synced in
        ground (
          arith,
          Shrinks-read_sample path n sought,
          idle (sync path) refl,
          idle (seek_start path) refl,
          idle (close path) refl,
          idle (remove path) refl,
          idle now refl,
        )

    Shrinks-after_loop :
        (started size : ℕ) (r : Option (Unit {0})) → Keeps (after_loop h sha256 path started size r)
    unfolding after_loop
    Shrinks-after_loop started size none l k = k
    Shrinks-after_loop started size (some u) l k =
        Shrinks-bind makes frees (finish_shred h sha256 path started size) (λ r. pure (some r))
          (Shrinks-finish started size) (λ r m k. k) l k

    Shrinks-open : (started : ℕ) → Keeps (shred_open h sha256 path started)
    unfolding shred_open
    Shrinks-open started =
        Shrinks-bind makes frees
          (context (ask_number h (file_size path)) (lit "failed to stat file for size"))
          (λ size. zero_loop h (suc size) path size 0 >>= after_loop h sha256 path started size)
          (Shrinks-on_error makes frees (ask_number h (file_size path)) (pure tt)
            (lit "failed to stat file for size")
            (Shrinks-ask makes frees h h.number (file_size path) (idle (file_size path) refl))
            (λ l k. k))
          (λ size.
            Shrinks-bind makes frees (zero_loop h (suc size) path size 0)
              (after_loop h sha256 path started size) (Shrinks-zero_loop (suc size) path size 0)
              (Shrinks-after_loop started size))

    -- A resource that ShredFile leaves was there before.
    pub shred_file-Shrinks : Keeps (shred_file h sha256 path)
    unfolding shred_file held
    shred_file-Shrinks l k =
        let started : Log = record { call = now; fault = none } ∷ l in
        let opened : Log = record { call = open_write path; fault = none } ∷ started in
        ground (
          arith,
          Shrinks-closing path (shred_open h sha256 path (h.number l now))
              (Shrinks-open (h.number l now)) opened,
          idle now refl,
          idle (open_write path) refl,
        )
