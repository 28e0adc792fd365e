-- ===== src/Kraft/Exec.antt =====
-- pkg/kraft/exec.go: kraft as a command, and the error of one that fails. The exit code that an
-- error of os/exec carries, if it is an *exec.ExitError, is a parameter, and so is
-- strings.TrimSpace. What Run streams to its writers is not kept.
pub mod Capture
use drover_runner.Base.{
  Text, ◌++◌, lit, ◌==◌, join, length, drop, ◌-◌, ltb, not, if◌then◌else◌, List, [], ◌∷◌, Bool,
  true, false, Option, none, some,
}
use drover_runner.Base.Int.{ℤ, pos, decimal_int, is_zero}
use drover_runner.Host.{Host, Log, Error, error_text, run_in}
use drover_runner.Kraft.{Kraft, binary_of}

-- `none` is a nil error.
pub record CommandError : Type 0 where
  pub command : Text
  pub args : List Text
  pub dir : Text
  pub exit_code : ℤ
  pub output : Text
  pub cause : Option Error

-- The tail of an output, at most 300 bytes.
unfoldable pub snippet : Text → Text
snippet output = if ltb 300 (length output) then drop (length output - 300) output else output

-- The parts that are added to the message.
unfoldable pub in_dir : Text → Text
in_dir dir = if not (dir == []) then lit " (in " ++ (dir ++ lit ")") else []

unfoldable pub exit_part : ℤ → Text
exit_part code = if not (is_zero code) then lit " (exit " ++ (decimal_int code ++ lit ")") else []

unfoldable pub output_part : Text → Text
unfolding snippet
output_part output =
    if not (output == []) then lit "\n--- kraft output (tail) ---\n" ++ snippet output else []

unfoldable pub cause_part : Option Error → Text
cause_part none = []
cause_part (some e) = lit "\nroot cause: " ++ error_text e

-- The method Error.
unfoldable pub command_error_text : CommandError → Text
unfolding in_dir exit_part output_part cause_part
command_error_text e =
    (lit "kraft " ++ (join b' ' (e.command ∷ e.args) ++ lit " failed"))
    ++ (in_dir e.dir ++ (exit_part e.exit_code ++ (output_part e.output ++ cause_part e.cause)))

unfoldable pub unwrap : CommandError → Option Error
unwrap e = e.cause

-- The errors that IsKraftError tells apart.
pub data AnyError : Type 0 where
  kraft : CommandError → AnyError
  wrapping : Text → AnyError → AnyError
  other : Error → AnyError

unfoldable pub is_kraft_error : AnyError → Bool
is_kraft_error (kraft e) = true
is_kraft_error (wrapping t e) = is_kraft_error e
is_kraft_error (other e) = false

unfoldable pub with_binary : Text → Kraft → Kraft
with_binary bin k = record k { binary = bin }

module _ (h : Host) (exit_code : Error → Option ℤ) (k : Kraft) where
  -- `if err != nil { ... }` of Run, whose error keeps no output.
  unfoldable pub run_error : Text → Text → List Text → Option Error → Option CommandError
  run_error bin dir args none = none
  run_error bin dir args (some e) = some (record {
    command = bin;
    args = args;
    dir = dir;
    exit_code = elim (exit_code e) [ none ↦ pos 1 | some code ↦ code ];
    output = [];
    cause = some e;
  })

  -- Run
  unfoldable pub run_kraft : Text → List Text → Log → Option CommandError × Log
  unfolding run_error
  run_kraft dir args l =
      let bin = if k.binary == [] then lit "kraft" else k.binary in
      let c = run_in dir (bin ∷ args) in
      (run_error bin dir args (h.fault l c), record { call = c; fault = h.fault l c } ∷ l)

  -- `if err != nil { ... }` of RunCapture, with the output that was captured.
  unfoldable pub capture_error : Text → Text → List Text → Text → Option Error → Option CommandError
  capture_error bin dir args output none = none
  capture_error bin dir args output (some e) = some (record {
    command = bin;
    args = args;
    dir = dir;
    exit_code = elim (exit_code e) [ none ↦ pos 1 | some code ↦ code ];
    output = output;
    cause = some e;
  })

  unfoldable pub run_capture : Text → List Text → Log → (Text × Option CommandError) × Log
  unfolding capture_error
  run_capture dir args l =
      let bin = if k.binary == [] then lit "kraft" else k.binary in
      let c = run_in dir (bin ∷ args) in
      (
        (h.bytes l c, capture_error bin dir args (h.bytes l c) (h.fault l c)),
        record { call = c; fault = h.fault l c } ∷ l,
      )

  unfoldable pub build : Text → List Text → Log → Option CommandError × Log
  unfolding run_kraft
  build dir extra_args = run_kraft dir (lit "build" ∷ extra_args)

  unfoldable pub run_vm : Text → List Text → Log → Option CommandError × Log
  unfolding run_kraft
  run_vm dir extra_args = run_kraft dir (lit "run" ∷ extra_args)

  -- `if err != nil { return "", err }; return strings.TrimSpace(out), nil`
  unfoldable pub version_of :
      (Text → Text) → Text × Option CommandError → Text × Option CommandError
  version_of trim_space (out, some e) = ([], some e)
  version_of trim_space (out, none) = (trim_space out, none)

  unfoldable pub version : (Text → Text) → Log → (Text × Option CommandError) × Log
  unfolding run_capture version_of
  version trim_space l =
      let p = run_capture [] (lit "version" ∷ []) l in (version_of trim_space p.0, p.1)
