-- ===== src/Examples/Kraft.antt =====
-- Targets of a Kraftfile.
use drover_runner.Base.{lit, ◌++◌, [], ◌∷◌, true, ◌≡◌, ◌↔◌, arith}
use drover_runner.Kraft.Kraftfile.{
  Target, short, unknown, target_of, target_string, unmarshal, has_target,
}
use drover_runner.Kraft.Kraftfile.Targets.{
  target_string-short, target_string-empty, has_target-declared,
}

target_string-short_example :
    target_string (target_of (short (lit "fc" ++ b'/' ∷ lit "x86_64")))
    ≡ lit "fc" ++ b'/' ∷ lit "x86_64"
unfolding lit
target_string-short_example =
    target_string-short (lit "fc") (lit "x86_64") (λ e. absurd (cc e)) (λ e. absurd (cc e))
      (omega arith)

abbrev no_platform : Target
no_platform = record { name = []; plat = []; arch = lit "arm64"; kconfig = [] }

target_string-empty_example :
    (target_string no_platform ≡ []) ↔ ((no_platform.name ≡ []) × (no_platform.plat ≡ []))
target_string-empty_example = target_string-empty no_platform

has_target-declared_example :
    has_target
      (unmarshal
        ((unknown ∷ []) ++ short (lit "qemu" ++ b'/' ∷ lit "arm64") ∷ short (lit "fc") ∷ []))
      (lit "qemu" ++ b'/' ∷ lit "arm64")
    ≡ true
unfolding lit
has_target-declared_example =
    has_target-declared (unknown ∷ []) (short (lit "fc") ∷ []) (lit "qemu") (lit "arm64")
      (λ e. absurd (cc e)) (λ e. absurd (cc e)) (omega arith)
