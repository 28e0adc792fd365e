-- ===== src/Host.antt =====
-- The effects of the program on its host, as values. An operation takes the log of the calls made
-- so far and returns its result with the longer log. What a call answers is a parameter, `Host`,
-- which may depend on the whole log: any operating system, child process and peer is one.
-- The log stands for the calls of os, os/exec, syscall and net/http in pkg/.
pub mod Ledger
pub mod Shrinks
pub mod Grows
use drover_runner.Base.{
  Text, ◌++◌, lit, ℕ, Option, none, some, List, [], ◌∷◌, ◌≡◌, refl, Bool, true, false, ◌⊎◌, inl,
  inr,
}

-- A Go error: of a foreign package, made by fmt.Errorf, or wrapped by fmt.Errorf with %w.
pub data Error : Type 0 where
  foreign message : Text → Error
  wrap : Text → Error → Error

-- The method Error().
pub error_text : Error → Text
error_text (foreign t) = t
error_text (message t) = t
error_text (wrap t e) = t ++ lit ": " ++ error_text e

-- A result that comes with an error, `(A, error)`.
pub data Result {ℓ} (A : Type ℓ) : Type ℓ where
  ok : A → Result A
  err : Error → Result A

-- The calls of the host.
pub data Call : Type 0 where
  -- exec.Command(...).Run() of the program and its arguments
  run : List Text → Call
  -- the same in a directory, the Cmd.Dir; the bytes of its answer are what the command wrote
  run_in : Text → List Text → Call
  -- exec.Command(...).Start(), in the directory of the program or another, and what is done with
  -- the process that the call at this command made
  start : List Text → Call
  start_in : Text → List Text → Call
  send_signal send_group : Text → List Text → Call
  -- syscall.Getpgid; waiting for the exit for some milliseconds, where a fault says that they
  -- passed; and waiting for it with no limit
  getpgid : List Text → Call
  wait_exit : ℕ → List Text → Call
  wait_for : List Text → Call
  -- os.ReadFile, os.WriteFile, os.Remove, os.Stat, time.Sleep in milliseconds
  read_file : Text → Call
  write_file : Text → Text → Call
  remove stat : Text → Call
  sleep : ℕ → Call
  -- os.Open, os.Create, io.Copy and Sync of the copy
  open_read create : Text → Call
  copy_into : Text → Text → Call
  sync : Text → Call
  -- os.OpenFile for reading and writing, Stat, Write of zeroes at the offset, Seek to the start,
  -- io.ReadFull and Close
  open_write file_size : Text → Call
  write_zeroes : Text → ℕ → ℕ → Call
  seek_start : Text → Call
  read_full : Text → ℕ → Call
  close : Text → Call
  -- the test of ctx.Done()
  poll_done : Call
  -- time.Now() in nanoseconds
  now : Call
  -- an HTTP PUT over the Unix socket at a path, with a body
  put : Text → Text → Text → Call
  -- a line on standard output
  print : Text → Call

-- A call with the error that it answered, if it did.
pub record Event : Type 0 where
  pub call : Call
  pub fault : Option Error

-- The newest event comes first.
abbrev pub Log : Type 0
Log = List Event

pub record Host : Type 0 where
  pub fault : Log → Call → Option Error
  pub number : Log → Call → ℕ
  pub bytes : Log → Call → Text
  -- what the process of a command has written to its output so far, write by write
  pub chunks : Log → List Text → List Text

abbrev pub M {ℓ} : Type ℓ → Type ℓ
M A = Log → Result A × Log

abbrev pub pure {ℓ} : {A : Type ℓ} → A → M A
pure a l = (ok a, l)

abbrev pub fail {ℓ} : {A : Type ℓ} → Error → M A
fail e l = (err e, l)

abbrev pub and_then {ℓ κ} : {A : Type ℓ} {B : Type κ} → Result A × Log → (A → M B) → Result B × Log
and_then p k = elim p.0 [ ok a ↦ k a p.1 | err e ↦ (err e, p.1) ]

infixl 5 ◌>>=◌ ◌>>◌
abbrev pub ◌>>=◌ {ℓ κ} : {A : Type ℓ} {B : Type κ} → M A → (A → M B) → M B
◌>>=◌ m k l = and_then (m l) k

abbrev pub ◌>>◌ {ℓ κ} : {A : Type ℓ} {B : Type κ} → M A → M B → M B
m >> k = m >>= λ _. k

-- `_ = f()`: the result and its error are dropped.
abbrev pub ignore {ℓ} : {A : Type ℓ} → M A → M (Unit {0})
ignore m l = (ok tt, (m l).1)

abbrev pub or_else {ℓ} : {A : Type ℓ} → Result A × Log → (Error → M A) → Result A × Log
or_else p k = elim p.0 [ ok a ↦ (ok a, p.1) | err e ↦ k e p.1 ]

-- `if err := f(); err != nil { cleanup; return fmt.Errorf("context: %w", err) }`
abbrev pub on_error {ℓ} : {A : Type ℓ} → M A → M (Unit {0}) → Text → M A
on_error m cleanup context l = or_else (m l) (λ e. cleanup >> fail (wrap context e))

abbrev pub context {ℓ} : {A : Type ℓ} → M A → Text → M A
context m t = on_error m (pure tt) t

-- `err := f()`, where the error is looked at later.
abbrev pub attempt {ℓ} : {A : Type ℓ} → M A → M (Result A)
attempt m l = (ok (m l).0, (m l).1)

abbrev pub of_fault {ℓ} : {A : Type ℓ} → Option Error → A → Result A
of_fault none a = ok a
of_fault (some e) a = err e

module _ (h : Host) where
  abbrev pub ask {ℓ} : {A : Type ℓ} → (Log → Call → A) → Call → M A
  ask answer c l =
      (of_fault (h.fault l c) (answer l c), record { call = c; fault = h.fault l c } ∷ l)

  -- A call that answers nothing but an error.
  abbrev pub perform : Call → M (Unit {0})
  perform c = ask (λ _ _. tt) c

  -- A call that answers a number or bytes, or an error.
  abbrev pub ask_number : Call → M ℕ
  ask_number c = ask h.number c

  abbrev pub ask_bytes : Call → M Text
  ask_bytes c = ask h.bytes c

pub Result-cases {ℓ} :
    {A : Type ℓ} (r : Result A) → ((a : A) × (r ≡ ok a)) ⊎ ((e : Error) × (r ≡ err e))
Result-cases (ok a) = inl (a, refl)
Result-cases (err e) = inr (e, refl)

-- Behind a computation that succeeds comes what follows it.
pub and_then-ok {ℓ κ} :
    {A : Type ℓ} {B : Type κ} (p : Result A × Log) (k : A → M B) (a : A)
    → p.0 ≡ ok a
    → and_then p k ≡ k a p.1
and_then-ok p k a e = rw e refl
