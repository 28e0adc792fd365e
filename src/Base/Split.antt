-- ===== src/Base/Split.antt =====
-- strings.Split and strings.Join at a one-byte separator.
use Prim.Native.Nat.{ℕ}
use mathlib.Core.Path.{◌≡◌, refl}
use mathlib.Core.Logic.{◌≢◌, inl, inr}
use mathlib.Core.List.{List, [], ◌∷◌, ◌++◌}
use native.Mathlib.Omega.{arith}
use drover_runner.Base.Tests.{nat_eq, if◌then◌else◌, Bool-cases}
use drover_runner.Base.Lists.{All}
use drover_runner.Base.Bytes.{Text}

-- Puts a byte in front of the first part.
abbrev pub onto_first : ℕ → List Text → List Text
onto_first c [] = (c ∷ []) ∷ []
onto_first c (part ∷ parts) = (c ∷ part) ∷ parts

-- strings.Split at a one-byte separator.
unfoldable pub split : ℕ → Text → List Text
split sep [] = [] ∷ []
split sep (c ∷ s) = let rest = split sep s in if nat_eq c sep then [] ∷ rest else onto_first c rest

-- The byte occurs nowhere in the text.
abbrev pub Lacks : ℕ → Text → Type 0
Lacks sep [] = Unit
Lacks sep (c ∷ s) = (c ≢ sep) × Lacks sep s

pub split_of_Lacks : (sep : ℕ) (s : Text) → Lacks sep s → split sep s ≡ s ∷ []
unfolding split
split_of_Lacks sep [] h = refl
split_of_Lacks sep (c ∷ s) (p, h) = ground (arith, split_of_Lacks sep s h)

pub split-append_sep :
    (sep : ℕ) (s t : Text) → Lacks sep s → split sep (s ++ sep ∷ t) ≡ s ∷ split sep t
unfolding split
split-append_sep sep [] t h = ground arith
split-append_sep sep (c ∷ s) t (p, h) = ground (arith, split-append_sep sep s t h)

pub Lacks-append : (sep : ℕ) (s t : Text) → Lacks sep s → Lacks sep t → Lacks sep (s ++ t)
Lacks-append sep [] t h k = k
Lacks-append sep (c ∷ s) t (p, h) k = (p, Lacks-append sep s t h k)

-- strings.Join at a one-byte separator.
unfoldable pub join : ℕ → List Text → Text
join sep [] = []
join sep (part ∷ []) = part
join sep (part ∷ next ∷ parts) = part ++ sep ∷ join sep (next ∷ parts)

join-onto_first :
    (sep c : ℕ) (parts : List Text) → join sep (onto_first c parts) ≡ c ∷ join sep parts
unfolding join
join-onto_first sep c [] = refl
join-onto_first sep c (part ∷ []) = refl
join-onto_first sep c (part ∷ next ∷ parts) = refl

onto_first-ne-nil : (c : ℕ) (parts : List Text) → onto_first c parts ≢ []
onto_first-ne-nil c [] = ground arith
onto_first-ne-nil c (part ∷ parts) = ground arith

split-ne-nil : (sep : ℕ) (s : Text) → split sep s ≢ []
unfolding split
split-ne-nil sep [] = ground arith
split-ne-nil sep (c ∷ s) = ground (arith, onto_first-ne-nil c (split sep s))

join-nil_cons :
    (sep : ℕ) (parts : List Text) → parts ≢ [] → join sep ([] ∷ parts) ≡ sep ∷ join sep parts
unfolding join
join-nil_cons sep [] h = absurd (h refl)
join-nil_cons sep (next ∷ parts) h = refl

-- The parts, joined again, are the text.
pub join-split : (sep : ℕ) (s : Text) → join sep (split sep s) ≡ s
unfolding split
join-split sep [] = unfold join in refl
join-split sep (c ∷ s) = ground (
  arith,
  join-split sep s,
  join-onto_first sep c (split sep s),
  join-nil_cons sep (split sep s) (split-ne-nil sep s),
)

All-onto_first :
    (sep c : ℕ) (parts : List Text)
    → c ≢ sep
    → All (Lacks sep) parts
    → All (Lacks sep) (onto_first c parts)
All-onto_first sep c [] p h = ((p, tt), tt)
All-onto_first sep c (part ∷ parts) p (k, h) = ((p, k), h)

-- No part holds the separator.
pub split-Lacks : (sep : ℕ) (s : Text) → All (Lacks sep) (split sep s)
unfolding split
split-Lacks sep [] = (tt, tt)
split-Lacks sep (c ∷ s) = elim (Bool-cases (nat_eq c sep)) [
  | inl same ↦ rw same (tt, split-Lacks sep s)
  | inr other ↦ rw other (All-onto_first sep c (split sep s) (ground arith) (split-Lacks sep s))
]
