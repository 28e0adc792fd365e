-- ===== src/Kraft/Exec/Capture.antt =====
-- What the errors of kraft commands carry.
use mathlib.Core.Option.{map}
use drover_runner.Base.{
  ℕ, zero, suc, ap, sym, Text, ◌++◌, length, take, drop, ◌-◌, min, ltb, Bool-cases, Option, List,
  [], ◌∷◌, ◌≡◌, refl, inl, inr, arith, none, some, Option-cases, ◌⊎◌, ◌∙◌, if◌then◌else◌, ◌==◌, lit,
  ltb→ge, ltb→lt, length-drop,
}
use drover_runner.Base.Int.{ℤ, pos}
use drover_runner.Host.{Host, Log, Error, run_in}
use drover_runner.Kraft.{Kraft}
use drover_runner.Kraft.Exec.{
  CommandError, unwrap, snippet, run_kraft, run_capture, run_error, capture_error,
}

take-append-drop : (n : ℕ) (s : Text) → take n s ++ drop n s ≡ s
take-append-drop zero s = refl
take-append-drop (suc n) [] = refl
take-append-drop (suc n) (b ∷ s) = ap (λ t. b ∷ t) (take-append-drop n s)

-- The output in an error's message is the end of the output: its last 300 bytes, or all of it.
pub snippet-suffix :
    (output : Text)
    → (front : Text) × (output ≡ front ++ snippet output)
      × (length (snippet output) ≡ min 300 (length output))
unfolding snippet
snippet-suffix output = elim (Bool-cases (ltb 300 (length output))) [
  | inl long ↦
      let n : ℕ = length output - 300 in
      rw long (
        take n output,
        sym (take-append-drop n output),
        omega (arith, length-drop n output, ltb→lt 300 (length output) long),
      )
  | inr short ↦ rw short ([], refl, omega (arith, ltb→ge 300 (length output) short))
]

abbrev pub with_output : Text → CommandError → CommandError
with_output output e = record e { output = output }

-- The program that is run, kraft if none is set.
abbrev pub program : Kraft → Text
program k = if k.binary == [] then lit "kraft" else k.binary

module _ (h : Host) (exit_code : Error → Option ℤ) (k : Kraft) where
  -- What the error of a command says: the command as it was run, the error of os/exec, and the exit
  -- code that this carries, or 1.
  abbrev pub Says : Text → List Text → Error → CommandError → Type 0
  Says dir args e x =
      (x.command ≡ program k)
      × (x.args ≡ args)
      × (x.dir ≡ dir)
      × (unwrap x ≡ some e)
      × ((exit_code e ≡ some x.exit_code) ⊎ ((exit_code e ≡ none) × (x.exit_code ≡ pos 1)))

  -- Run fails if its command does.
  abbrev pub Reports : Text → List Text → Option Error → Option CommandError → Type 0
  Reports dir args none r = r ≡ none
  Reports dir args (some e) r =
      (x : CommandError) × (r ≡ some x) × (x.output ≡ []) × Says dir args e x

  run_error-Reports :
      (dir : Text) (args : List Text) (f : Option Error)
      → Reports dir args f (run_error h exit_code k (program k) dir args f)
  unfolding run_error unwrap
  run_error-Reports dir args none = refl
  run_error-Reports dir args (some e) = elim (Option-cases (exit_code e)) [
    | inl no_exit ↦ (_, refl, refl, (refl, refl, refl, refl, inr (no_exit, rw no_exit refl)))
    | inr (code, exited) ↦ (_, refl, refl, (refl, refl, refl, refl, inl (exited ∙ rw exited refl)))
  ]

  -- Run fails exactly if its command does, with an error that names the program, its arguments and
  -- its directory and carries the cause and the exit code, or 1 if there is none. RunCapture makes
  -- the same call, returns what the command wrote, and fails with the same error but that its output
  -- is what the command wrote.
  pub run_capture-run_kraft :
      (dir : Text) (args : List Text) (l : Log)
      → Reports dir args
          (h.fault l (run_in dir (program k ∷ args)))
          (run_kraft h exit_code k dir args l).0
        × (run_capture h exit_code k dir args l ≡ (
          (
            h.bytes l (run_in dir (program k ∷ args)),
            map
                (with_output (h.bytes l (run_in dir (program k ∷ args))))
                (run_kraft h exit_code k dir args l).0,
          ),
          (run_kraft h exit_code k dir args l).1,
        ))
  unfolding run_capture run_kraft run_error capture_error
  run_capture-run_kraft dir args l =
      (run_error-Reports dir args (h.fault l (run_in dir (program k ∷ args))), ground arith)
