-- ===== src/Host/Ledger.antt =====
-- What a log says of the resources that the program holds on the host: one is held from the call
-- that made it, if that succeeded, to the call that gives it back, whether that succeeds or not.
use drover_runner.Base.{
  eq_refl, ◌≡◌, refl, Text, ◌==◌, List, [], ◌∷◌, Bool, true, false, ◌&&◌, if◌then◌else◌, Option,
  none, some,
}
use drover_runner.Host.{Error, Call, run, start, send_signal, send_group, remove, create, Log}

unfoldable pub texts_eq : List Text → List Text → Bool
texts_eq [] [] = true
texts_eq [] (t ∷ ts) = false
texts_eq (s ∷ ss) [] = false
texts_eq (s ∷ ss) (t ∷ ts) = s == t && texts_eq ss ts

pub texts_eq_refl : (ts : List Text) → texts_eq ts ts ≡ true
unfolding texts_eq
texts_eq_refl [] = refl
texts_eq_refl (t ∷ ts) = rw (eq_refl t, texts_eq_refl ts)

unfoldable pub is_run : List Text → Call → Bool
unfolding texts_eq
is_run args (run given) = texts_eq args given
is_run args _ = false

unfoldable pub is_start : List Text → Call → Bool
unfolding texts_eq
is_start args (start given) = texts_eq args given
is_start args _ = false

-- A signal to the process or to its group.
unfoldable pub is_stopped : List Text → Call → Bool
unfolding texts_eq
is_stopped args (send_signal s given) = texts_eq args given
is_stopped args (send_group s given) = texts_eq args given
is_stopped args _ = false

unfoldable pub is_create : Text → Call → Bool
is_create path (create given) = path == given
is_create path _ = false

unfoldable pub is_remove : Text → Call → Bool
is_remove path (remove given) = path == given
is_remove path _ = false

abbrev pub succeeded : Option Error → Bool
succeeded none = true
succeeded (some e) = false

-- The resource that `makes` makes and `frees` gives back, after the calls of a log.
unfoldable pub held : (Call → Bool) → (Call → Bool) → Log → Bool
held makes frees [] = false
held makes frees (e ∷ l) =
    if frees e.call
    then false
    else if makes e.call && succeeded e.fault
    then true
    else held makes frees l
