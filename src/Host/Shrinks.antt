-- ===== src/Host/Shrinks.antt =====
-- Operations that leave no resource behind: what is held after them was held before.
use drover_runner.Base.{
  Text, Bool, true, false, Option, ◌∷◌, ◌≡◌, refl, arith, inl, inr, Bool-cases,
}
use drover_runner.Host.{
  Host, Log, Call, M, Result, ok, err, Error, perform, ask, ignore, on_error, fail, or_else, wrap,
  run, start, create, print, ◌>>=◌, ◌>>◌, and_then,
}
use drover_runner.Host.Ledger.{held}

-- The calls that can make a resource.
abbrev pub is_maker : Call → Bool
is_maker (run a) = true
is_maker (start a) = true
is_maker (create p) = true
is_maker (print t) = true
is_maker _ = false

module _ (makes frees : Call → Bool) where
  abbrev pub Holds : Log → Type 0
  Holds l = held makes frees l ≡ true

  abbrev pub Shrinks : {A : Type 0} → M A → Type 0
  Shrinks m = (l : Log) → Holds (m l).1 → Holds l

  -- The resource is gone whatever the result.
  abbrev pub Clears : {A : Type 0} → M A → Type 0
  Clears m = (l : Log) → held makes frees (m l).1 ≡ false

  -- If the operation fails, it leaves nothing behind, or it leaves the resource gone.
  abbrev pub FailShrinks : {A : Type 0} → M A → Type 0
  FailShrinks m = (l : Log) (e : Error) → (m l).0 ≡ err e → Holds (m l).1 → Holds l

  abbrev pub FailClears : {A : Type 0} → M A → Type 0
  FailClears m = (l : Log) (e : Error) → (m l).0 ≡ err e → held makes frees (m l).1 ≡ false

  pub Shrinks-event :
      (c : Call) (f : Option Error) (l : Log)
      → makes c ≡ false
      → Holds (record { call = c; fault = f } ∷ l)
      → Holds l
  unfolding held
  Shrinks-event c f l idle h = ground arith

  pub Clears-event :
      (c : Call) (f : Option Error) (l : Log)
      → frees c ≡ true
      → held makes frees (record { call = c; fault = f } ∷ l) ≡ false
  unfolding held
  Clears-event c f l freed = ground arith

  module _ (h : Host) where
    pub Shrinks-perform : (c : Call) → makes c ≡ false → Shrinks (perform h c)
    Shrinks-perform c idle l = Shrinks-event c (h.fault l c) l idle

    pub Shrinks-ask :
        {A : Type 0} (answer : Log → Call → A) (c : Call)
        → makes c ≡ false
        → Shrinks (ask h answer c)
    Shrinks-ask answer c idle l = Shrinks-event c (h.fault l c) l idle

    pub Clears-perform : (c : Call) → frees c ≡ true → Clears (perform h c)
    Clears-perform c freed l = Clears-event c (h.fault l c) l freed

  module _ {A B : Type 0} (m : M A) (k : A → M B) where
    and_then-Holds :
        (p : Result A × Log) → ((a : A) → Shrinks (k a)) → Holds (and_then p k).1 → Holds p.1
    and_then-Holds (ok a, l) s h = s a l h
    and_then-Holds (err e, l) s h = h

    pub Shrinks-bind : Shrinks m → ((a : A) → Shrinks (k a)) → Shrinks (m >>= k)
    Shrinks-bind s t l h = s l (and_then-Holds (m l) t h)

    and_then-FailHolds :
        (p : Result A × Log) (e : Error)
        → ((a : A) → FailShrinks (k a))
        → (and_then p k).0 ≡ err e
        → Holds (and_then p k).1
        → Holds p.1
    and_then-FailHolds (ok a, l) e s f h = s a l e f h
    and_then-FailHolds (err e', l) e s f h = h

    -- The first step makes nothing, and a failure of the second leaves nothing behind.
    pub FailShrinks-bind : Shrinks m → ((a : A) → FailShrinks (k a)) → FailShrinks (m >>= k)
    FailShrinks-bind s t l e f h = s l (and_then-FailHolds (m l) e t f h)

    and_then-FailClears :
        (p : Result A × Log) (e : Error)
        → ((e' : Error) → p.0 ≡ err e' → held makes frees p.1 ≡ false)
        → ((a : A) → FailClears (k a))
        → (and_then p k).0 ≡ err e
        → held makes frees (and_then p k).1 ≡ false
    and_then-FailClears (ok a, l) e s t f = t a l e f
    and_then-FailClears (err e', l) e s t f = s e' refl

    pub FailClears-bind : FailClears m → ((a : A) → FailClears (k a)) → FailClears (m >>= k)
    FailClears-bind s t l e f = and_then-FailClears (m l) e (s l) t f

    and_then-FailMixed :
        (p : Result A × Log) (e : Error) (l : Log)
        → ((e' : Error) → p.0 ≡ err e' → Holds p.1 → Holds l)
        → ((a : A) → FailClears (k a))
        → (and_then p k).0 ≡ err e
        → Holds (and_then p k).1
        → Holds l
    and_then-FailMixed (ok a, l') e l s t f h = let gone = t a l' e f in ground arith
    and_then-FailMixed (err e', l') e l s t f h = s e' refl h

    -- The first step may make the resource, and a failure of the second leaves it gone.
    pub FailShrinks-made : FailShrinks m → ((a : A) → FailClears (k a)) → FailShrinks (m >>= k)
    FailShrinks-made s t l e f h = and_then-FailMixed (m l) e l (s l) t f h

  module _ {A B : Type 0} (m : M A) (k : A → M B) (Good : A → Type 0) where
    and_then-FailGood :
        (p : Result A × Log) (e : Error) (l : Log)
        → ((e' : Error) → p.0 ≡ err e' → Holds p.1 → Holds l)
        → ((a : A) → p.0 ≡ ok a → Good a)
        → ((a : A) → Good a → FailClears (k a))
        → (and_then p k).0 ≡ err e
        → Holds (and_then p k).1
        → Holds l
    and_then-FailGood (ok a, l') e l s g t f h = let gone = t a (g a refl) l' e f in ground arith
    and_then-FailGood (err e', l') e l s g t f h = s e' refl h

    -- The same, where the second step relies on what the first returns.
    pub FailShrinks-good :
        FailShrinks m
        → ((l : Log) (a : A) → (m l).0 ≡ ok a → Good a)
        → ((a : A) → Good a → FailClears (k a))
        → FailShrinks (m >>= k)
    FailShrinks-good s g t l e f h = and_then-FailGood (m l) e l (s l) (g l) t f h

  then_fail-log :
      (A : Type 0) (p : Result (Unit {0}) × Log) (e : Error)
      → (and_then p (λ _. fail {A = A} e)).1 ≡ p.1
  then_fail-log A (ok u, l) e = refl
  then_fail-log A (err e', l) e = refl

  module _ {A : Type 0} (m : M A) where
    pub Shrinks-ignore : Shrinks m → Shrinks (ignore m)
    Shrinks-ignore s = s

    pub Clears-ignore : Clears m → Clears (ignore m)
    Clears-ignore s = s

    pub FailShrinks-of_Shrinks : Shrinks m → FailShrinks m
    FailShrinks-of_Shrinks s l e f h = s l h

    module _ (cleanup : M (Unit {0})) (t : Text) where
      or_else-Holds :
          (p : Result A × Log) (l : Log)
          → ((a : A) → p.0 ≡ ok a → Holds p.1 → Holds l)
          → ((e : Error) → p.0 ≡ err e → Holds (cleanup p.1).1 → Holds l)
          → Holds (or_else p (λ e. cleanup >> fail (wrap t e))).1
          → Holds l
      or_else-Holds (ok a, l') l s c h = s a refl h
      or_else-Holds (err e, l') l s c h =
          c e refl (rw (then_fail-log A (cleanup l') (wrap t e)) at h)

      or_else-FailHolds :
          (p : Result A × Log) (e : Error)
          → (or_else p (λ e'. cleanup >> fail (wrap t e'))).0 ≡ err e
          → ((e' : Error) × (p.0 ≡ err e'))
            × ((or_else p (λ e'. cleanup >> fail (wrap t e'))).1 ≡ (cleanup p.1).1)
      or_else-FailHolds (ok a, l') e f = cc
      or_else-FailHolds (err e', l') e f = ((e', refl), then_fail-log A (cleanup l') (wrap t e'))

      pub Shrinks-on_error : Shrinks m → Shrinks cleanup → Shrinks (on_error m cleanup t)
      Shrinks-on_error s c l = or_else-Holds (m l) l (λ a e h. s l h) (λ e f h. s l (c (m l).1 h))

      pub FailShrinks-on_error :
          FailShrinks m → Shrinks cleanup → FailShrinks (on_error m cleanup t)
      FailShrinks-on_error s c l e f h =
          let (failed, log) = or_else-FailHolds (m l) e f in
          s l failed.0 failed.1 (c (m l).1 (rw log at h))

      pub FailClears-on_error : Clears cleanup → FailClears (on_error m cleanup t)
      FailClears-on_error c l e f =
          let (failed, log) = or_else-FailHolds (m l) e f in rw log (c (m l).1)

  -- A step that fails never, then another.
  pub Clears-then : {A : Type 0} (m : M A) (k : M (Unit {0})) → Clears k → Clears (ignore m >> k)
  Clears-then m k c l = c (m l).1

  pub Clears-keep :
      {A : Type 0} (m : M A) (k : M (Unit {0})) → Clears m → Shrinks k → Clears (ignore m >> k)
  Clears-keep m k c s l = elim (Bool-cases (held makes frees (k (m l).1).1)) [
    | inl still ↦ let gone = c l in let kept = s (m l).1 still in ground arith
    | inr over ↦ over
  ]
