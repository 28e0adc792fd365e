-- ===== src/Kraft/Kraftfile/Targets.antt =====
-- Which targets a Kraftfile declares.
use drover_runner.Base.{
  Text, ◌++◌, ◌==◌, eq_iff, eq_refl, Lacks, List, [], ◌∷◌, true, ◌||◌, Bool-cases, ◌≡◌, ◌≢◌, ◌↔◌,
  refl, arith, inl, inr, some,
}
use drover_runner.Kraft.Kraftfile.{
  Target, Item, short, split_target, short_target, target_of, is_kept, unmarshal, target_string,
  has_target,
}

split_target-append :
    (plat arch : Text) → Lacks b'/' plat → split_target (plat ++ b'/' ∷ arch) ≡ some (plat, arch)
unfolding split_target
split_target-append [] arch h = ground (arith)
split_target-append (b ∷ plat) arch (p, h) = ground (arith, split_target-append plat arch h)

-- A target in the short form plat/arch, neither part empty and no slash in the first, is printed as
-- it was written.
pub target_string-short :
    (plat arch : Text)
    → plat ≢ []
    → arch ≢ []
    → Lacks b'/' plat
    → target_string (target_of (short (plat ++ b'/' ∷ arch))) ≡ plat ++ b'/' ∷ arch
unfolding target_string target_of short_target
target_string-short plat arch p q h =
    ground (arith, split_target-append plat arch h, eq_iff plat [], eq_iff arch [])

-- A target is printed as the empty string exactly if it has no name and no platform, whatever its
-- architecture.
pub target_string-empty : (t : Target) → (target_string t ≡ []) ↔ ((t.name ≡ []) × (t.plat ≡ []))
unfolding target_string
target_string-empty t = ground (arith, eq_iff t.name [], eq_iff t.plat [], eq_iff t.arch [])

is_kept-short :
    (plat arch : Text)
    → plat ≢ []
    → Lacks b'/' plat
    → is_kept (target_of (short (plat ++ b'/' ∷ arch))) ≡ true
unfolding is_kept target_of short_target
is_kept-short plat arch p h = ground (arith, split_target-append plat arch h, eq_iff plat [])

has_target-cons :
    (t : Target) (ts : List Target) (target : Text)
    → has_target (t ∷ ts) target ≡ (target_string t == target || has_target ts target)
unfolding has_target
has_target-cons t ts target = refl

-- A target that is declared first, and one that is declared later.
found_first :
    (t : Target) (ts : List Target) (target : Text)
    → target_string t ≡ target
    → has_target (t ∷ ts) target ≡ true
found_first t ts target e = rw (has_target-cons, e, eq_refl target) refl

found_later :
    (t : Target) (ts : List Target) (target : Text)
    → has_target ts target ≡ true
    → has_target (t ∷ ts) target ≡ true
found_later t ts target e = ground (arith, has_target-cons t ts target, e)

-- Every item in the short form plat/arch, neither part empty and no slash in the first, is found by
-- HasTarget, wherever it stands among the items.
pub has_target-declared :
    (before after : List Item) (plat arch : Text)
    → plat ≢ []
    → arch ≢ []
    → Lacks b'/' plat
    → has_target (unmarshal (before ++ short (plat ++ b'/' ∷ arch) ∷ after)) (plat ++ b'/' ∷ arch)
      ≡ true
unfolding unmarshal
has_target-declared [] after plat arch p q h = rw (is_kept-short plat arch p h) (
    found_first (target_of (short (plat ++ b'/' ∷ arch))) (unmarshal after) _
      (target_string-short plat arch p q h))
has_target-declared (item ∷ before) after plat arch p q h =
    let rest = has_target-declared before after plat arch p q h in
    elim (Bool-cases (is_kept (target_of item))) [
      | inl kept ↦ rw kept (found_later (target_of item) _ _ rest)
      | inr dropped ↦ rw dropped rest
    ]
