-- ===== src/Storage/Handles.antt =====
-- The files that ShredFile leaves open.
use drover_runner.Base.{
  none, some, ◌∷◌, Text, eq_refl, ◌==◌, Bool, true, false, Option-cases, ◌≡◌, inl, inr, arith,
}
use drover_runner.Host.{now, Error, Host, Log, Call, M, open_write, close}
use drover_runner.Host.Ledger.{held}
use drover_runner.Storage.{closing, clock, shred_open, shred_file}

abbrev is_open : Text → Call → Bool
is_open path (open_write given) = path == given
is_open path _ = false

abbrev is_close : Text → Call → Bool
is_close path (close given) = path == given
is_close path _ = false

-- The file was opened for writing, and its closing was not tried since.
unfoldable pub handle_held : Text → Log → Bool
unfolding held
handle_held path = held (is_open path) (is_close path)

module _ (h : Host) (path : Text) where
  closing-handle_held :
      {A : Type 0} (m : M A) (l : Log) → handle_held path (closing h path m l).1 ≡ false
  unfolding handle_held
  closing-handle_held m l = ground (arith, eq_refl path)

  module _ (sha256 : Text → Text) (l : Log) where
    shred_file-opened :
        h.fault (clock h l).1 (open_write path) ≡ none
        → shred_file h sha256 path l
          ≡ closing h path
              (shred_open h sha256 path (h.number l now))
              (record { call = open_write path; fault = none } ∷ (clock h l).1)
    unfolding shred_file
    shred_file-opened opened = ground (arith, opened)

    shred_file-refused :
        (e : Error)
        → h.fault (clock h l).1 (open_write path) ≡ some e
        → (shred_file h sha256 path l).1
          ≡ record { call = open_write path; fault = some e } ∷ (clock h l).1
    unfolding shred_file
    shred_file-refused e failed = ground (arith, failed)

    -- ShredFile leaves no handle of its file open that was not open before, whether it succeeds or
    -- fails; a call to close it counts, whether it succeeds or not.
    pub shred_file-handle_held :
        handle_held path (shred_file h sha256 path l).1 ≡ true → handle_held path l ≡ true
    unfolding handle_held
    shred_file-handle_held there = elim (Option-cases (h.fault (clock h l).1 (open_write path))) [
      | inl opened ↦ absurd (
          cc (
            there,
            shred_file-opened opened,
            closing-handle_held (shred_open h sha256 path (h.number l now))
                (record { call = open_write path; fault = none } ∷ (clock h l).1),
          ))
      | inr (e, failed) ↦ ground (arith, there, shred_file-refused e failed)
    ]
