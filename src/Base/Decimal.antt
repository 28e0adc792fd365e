-- ===== src/Base/Decimal.antt =====
-- The decimal digits that fmt prints for %d, and that no two numbers print alike.
use mathlib.Core.List.{append_assoc, [], ◌∷◌, ◌++◌}
use drover_runner.Base.Tests.{ltb, if◌then◌else◌, Bool-cases, ltb→lt, ltb→ge, lt→ltb, ge→ltb}
use drover_runner.Base.Lists.{length, All}
use drover_runner.Base.Bytes.{Text}
use Prim.Native.Nat.{ℕ, zero, suc, ◌+◌, ◌-◌, ◌*◌, ◌/◌, ◌%◌, ◌^◌, ◌≤◌, ◌<◌}
use mathlib.Core.Path.{◌≡◌, refl, sym, ap, ◌∙◌}
use mathlib.Core.Logic.{inl, inr}
use native.Mathlib.Nat.{pow-suc}
use native.Mathlib.Omega.{arith}

-- `fuel` bounds the number of digits that are still to be printed.
unfoldable pub digits_from : ℕ → ℕ → Text → Text
digits_from zero n out = out
digits_from (suc fuel) n out =
    let more = digits_from fuel (n / 10) ((n % 10 + 48) ∷ out) in
    if ltb n 10 then (n + 48) ∷ out else more

-- A number has fewer digits than it has units, so this fuel is enough.
unfoldable pub decimal : ℕ → Text
unfolding digits_from
decimal n = digits_from (suc n) n []

-- The number that a text of digits stands for.
pub value_from : ℕ → Text → ℕ
value_from acc [] = acc
value_from acc (d ∷ s) = value_from (acc * 10 + (d - 48)) s

pub value : Text → ℕ
unfolding value_from
value = value_from 0

-- Reading back what was printed in front of `out`.
value_from-digits_from :
    (fuel n : ℕ) (out : Text) → n < fuel → value_from 0 (digits_from fuel n out) ≡ value_from n out
unfolding digits_from value_from
value_from-digits_from zero n out h = absurd (omega arith)
value_from-digits_from (suc fuel) n out h = elim (Bool-cases (ltb n 10)) [
  | inl small ↦ rw small (ap (λ m. value_from m out) (omega arith))
  | inr large ↦
      let big : 10 ≤ n = ltb→ge n 10 large in
      rw large (
        value_from-digits_from fuel (n / 10) ((n % 10 + 48) ∷ out) (omega arith)
        ∙ ap (λ m. value_from m out) (omega arith))
]

-- Printing is read back: parsing the digits gives the number.
pub value-decimal : (n : ℕ) → value (decimal n) ≡ n
unfolding decimal value
value-decimal n = value_from-digits_from (suc n) n [] (omega arith)

pub decimal_injective : (n m : ℕ) → decimal n ≡ decimal m → n ≡ m
decimal_injective n m h = sym (value-decimal n) ∙ ap value h ∙ value-decimal m

-- More fuel than digits changes nothing.
digits_from_fuel :
    (f g n : ℕ) (out : Text) → n < f → n < g → digits_from f n out ≡ digits_from g n out
unfolding digits_from
digits_from_fuel zero g n out h k = absurd (omega arith)
digits_from_fuel (suc f) zero n out h k = absurd (omega arith)
digits_from_fuel (suc f) (suc g) n out h k = elim (Bool-cases (ltb n 10)) [
  | inl small ↦ rw small
  | inr large ↦
      let big : 10 ≤ n = ltb→ge n 10 large in
      rw large (digits_from_fuel f g (n / 10) ((n % 10 + 48) ∷ out) (omega arith) (omega arith))
]

digits_from-append : (f n : ℕ) (out : Text) → digits_from f n out ≡ digits_from f n [] ++ out
unfolding digits_from
digits_from-append zero n out = refl
digits_from-append (suc f) n out = elim (Bool-cases (ltb n 10)) [
  | inl small ↦ rw small
  | inr large ↦
      rw
        (
          large,
          digits_from-append f (n / 10) ((n % 10 + 48) ∷ out),
          digits_from-append f (n / 10) ((n % 10 + 48) ∷ []),
        )
        (sym (append_assoc (digits_from f (n / 10) []) ((n % 10 + 48) ∷ []) out))
]

decimal_large :
    (n d m : ℕ) → 10 ≤ m → m / 10 ≡ n → m % 10 ≡ d → decimal m ≡ digits_from m n ((d + 48) ∷ [])
unfolding decimal
decimal_large n d m h q r = rw (ge→ltb m 10 h, q, r)

-- The last digit stands at the end, behind the digits of the quotient.
pub decimal_snoc : (n d : ℕ) → 0 < n → d < 10 → decimal (n * 10 + d) ≡ decimal n ++ (d + 48) ∷ []
decimal_snoc n d p h =
    decimal_large n d (n * 10 + d) (omega arith) (omega arith) (omega arith)
    ∙ digits_from_fuel (n * 10 + d) (suc n) n ((d + 48) ∷ []) (omega arith) (omega arith)
    ∙ digits_from-append (suc n) n ((d + 48) ∷ [])
    ∙ unfold decimal in refl

length-digits_from :
    (k f n : ℕ) (out : Text) → n < 10 ^ suc k → length (digits_from f n out) ≤ length out + suc k
unfolding digits_from
length-digits_from k zero n out h = omega arith
length-digits_from zero (suc f) n out h =
    rw (lt→ltb n 10 (omega (arith, pow-suc 10 0))) (omega arith)
length-digits_from (suc k) (suc f) n out h = elim (Bool-cases (ltb n 10)) [
  | inl small ↦ rw small (omega arith)
  | inr large ↦
      let shorter : n / 10 < 10 ^ suc k = omega (arith, pow-suc 10 (suc k)) in
      rw large (omega (arith, length-digits_from k f (n / 10) ((n % 10 + 48) ∷ out) shorter))
]

-- Numbers below 10 ^ (k + 1) have at most k + 1 digits.
pub length-decimal : (k n : ℕ) → n < 10 ^ suc k → length (decimal n) ≤ suc k
unfolding decimal
length-decimal k n h = omega (arith, length-digits_from k (suc n) n [] h)

pow_pos : (k : ℕ) → 0 < 10 ^ k
pow_pos zero = omega arith
pow_pos (suc k) = omega (arith, pow-suc 10 k, pow_pos k)

length-digits_from_large :
    (k f n : ℕ) (out : Text)
    → n < f
    → 10 ^ k ≤ n
    → length out + suc k ≤ length (digits_from f n out)
unfolding digits_from
length-digits_from_large k zero n out h g = absurd (omega arith)
length-digits_from_large zero (suc f) n out h g = elim (Bool-cases (ltb n 10)) [
  | inl small ↦ rw small (omega arith)
  | inr large ↦
      let big : 10 ≤ n = ltb→ge n 10 large in
      let some_left : 10 ^ zero ≤ n / 10 = omega arith in
      let out' : Text = (n % 10 + 48) ∷ out in
      rw large
        (omega (arith, length-digits_from_large zero f (n / 10) out' (omega arith) some_left))
]
length-digits_from_large (suc k) (suc f) n out h g =
    let left : 10 ^ k ≤ n / 10 = omega (arith, pow-suc 10 k) in
    let positive : 0 < 10 ^ k = pow_pos k in
    let out' : Text = (n % 10 + 48) ∷ out in
    rw (ge→ltb n 10 (omega (arith, pow-suc 10 k)))
      (omega (arith, length-digits_from_large k f (n / 10) out' (omega arith) left))

-- Numbers from 10 ^ k on have more than k digits.
pub length-decimal_large : (k n : ℕ) → 10 ^ k ≤ n → suc k ≤ length (decimal n)
unfolding decimal
length-decimal_large k n g = omega (arith, length-digits_from_large k (suc n) n [] (omega arith) g)

digits_from-All :
    (P : ℕ → Type 0)
    → ((d : ℕ) → d < 10 → P (d + 48))
    → (f n : ℕ) (out : Text) → All P out
    → All P (digits_from f n out)
unfolding digits_from
digits_from-All P digit zero n out h = h
digits_from-All P digit (suc f) n out h = elim (Bool-cases (ltb n 10)) [
  | inl small ↦ rw small (digit n (ltb→lt n 10 small), h)
  | inr large ↦
      rw large
        (digits_from-All P digit f (n / 10) ((n % 10 + 48) ∷ out) (digit (n % 10) (omega arith), h))
]

-- Only digits are printed.
pub decimal-All : (P : ℕ → Type 0) → ((d : ℕ) → d < 10 → P (d + 48)) → (n : ℕ) → All P (decimal n)
unfolding decimal
decimal-All P digit n = digits_from-All P digit (suc n) n [] tt
