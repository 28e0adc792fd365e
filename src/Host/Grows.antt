-- ===== src/Host/Grows.antt =====
-- Operations that keep a resource, or make it, if they succeed.
use drover_runner.Base.{Text, Bool, true, false, ◌≡◌, refl, arith, ◌≢◌}
use drover_runner.Host.{
  Host, Log, Call, M, Result, ok, err, perform, on_error, fail, or_else, wrap, run, send_signal,
  send_group, ◌>>=◌, ◌>>◌, and_then,
}
use drover_runner.Host.Ledger.{held}
use drover_runner.Host.Shrinks.{Holds}

-- The calls that can give a resource back.
abbrev pub is_freer : Call → Bool
is_freer (run a) = true
is_freer (send_signal s a) = true
is_freer (send_group s a) = true
is_freer _ = false

module _ (makes frees : Call → Bool) where
  -- If the operation succeeds, a resource that was there still is.
  abbrev pub Grows : {A : Type 0} → M A → Type 0
  Grows {A} m = (l : Log) (a : A) → (m l).0 ≡ ok a → Holds makes frees l → Holds makes frees (m l).1

  -- If the operation succeeds, the resource is there.
  abbrev pub Makes : {A : Type 0} → M A → Type 0
  Makes {A} m = (l : Log) (a : A) → (m l).0 ≡ ok a → Holds makes frees (m l).1

  pub Grows-perform : (h : Host) (c : Call) → frees c ≡ false → Grows (perform h c)
  unfolding held
  Grows-perform h c spared l a e k = ground arith

  module _ {A B : Type 0} (m : M A) (k : A → M B) where
    and_then-Holds_ok :
        (p : Result A × Log) (b : B)
        → ((a : A) → p.0 ≡ ok a → (k a p.1).0 ≡ ok b → Holds makes frees (k a p.1).1)
        → (and_then p k).0 ≡ ok b
        → Holds makes frees (and_then p k).1
    and_then-Holds_ok (ok a, l) b next e = next a refl e
    and_then-Holds_ok (err cause, l) b next e = absurd (cc e)

    pub Grows-bind : Grows m → ((a : A) → Grows (k a)) → Grows (m >>= k)
    Grows-bind first next l b e there =
        and_then-Holds_ok (m l) b (λ a done e'. next a (m l).1 b e' (first l a done there)) e

    -- The first step makes the resource, and the second keeps it.
    pub Makes-first : Makes m → ((a : A) → Grows (k a)) → Makes (m >>= k)
    Makes-first first next l b e =
        and_then-Holds_ok (m l) b (λ a done e'. next a (m l).1 b e' (first l a done)) e

    pub Makes-second : ((a : A) → Makes (k a)) → Makes (m >>= k)
    Makes-second next l b e = and_then-Holds_ok (m l) b (λ a done e'. next a (m l).1 b e') e

  module _ {A : Type 0} (m : M A) (cleanup : M (Unit {0})) (t : Text) where
    or_else-ok :
        (p : Result A × Log) (a : A)
        → (or_else p (λ e. cleanup >> fail (wrap t e))).0 ≡ ok a
        → (p.0 ≡ ok a) × ((or_else p (λ e. cleanup >> fail (wrap t e))).1 ≡ p.1)
    or_else-ok (ok b, l) a e = (e, refl)
    or_else-ok (err cause, l) a e = absurd (never (cleanup l) e)
      where
        never :
            (q : Result (Unit {0}) × Log) → (and_then q (λ _. fail {A = A} (wrap t cause))).0 ≢ ok a
        never (ok u, l') e' = cc
        never (err other, l') e' = cc

    pub Grows-on_error : Grows m → Grows (on_error m cleanup t)
    Grows-on_error s l a e there =
        let (done, log) = or_else-ok (m l) a e in rw log (s l a done there)

    pub Makes-on_error : Makes m → Makes (on_error m cleanup t)
    Makes-on_error s l a e = let (done, log) = or_else-ok (m l) a e in rw log (s l a done)
