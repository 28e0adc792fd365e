-- ===== src/Daemon/Ids.antt =====
-- The ids that handleCreateInstance makes from the counter vmSeq.
use drover_runner.Base.{
  Text, ◌++◌, lit, ℕ, ◌+◌, ◌%◌, ◌^◌, decimal, decimal_injective, decimal-All, Lacks, All, [], ◌∷◌,
  ◌≡◌, ◌≢◌, arith,
}

-- fmt.Sprintf("inst-%d", s.vmSeq)
unfoldable pub instance_id : ℕ → Text
instance_id n = lit "inst-" ++ decimal n

-- Two instances with one id have one sequence number.
pub instance_id_injective : (n m : ℕ) → instance_id n ≡ instance_id m → n ≡ m
unfolding instance_id lit
instance_id_injective n m e = decimal_injective n m (cc)

-- s.vmSeq++ on a uint64
unfoldable pub next_seq : ℕ → ℕ
next_seq n = (n + 1) % 2 ^ 64

Lacks-of-All : (s : Text) → All (λ c. c ≢ b'/') s → Lacks b'/' s
Lacks-of-All [] h = tt
Lacks-of-All (c ∷ s) (p, h) = (p, Lacks-of-All s h)

-- An id is not empty and holds no slash, so it stands as one segment of a path.
pub instance_id-Lacks_slash : (n : ℕ) → Lacks b'/' (instance_id n)
unfolding instance_id lit
instance_id-Lacks_slash n =
    let rest = Lacks-of-All (decimal n) (decimal-All (λ c. c ≢ b'/') (λ d h. omega arith) n) in
    (omega arith, (omega arith, (omega arith, (omega arith, (omega arith, rest)))))

pub instance_id-ne-nil : (n : ℕ) → instance_id n ≢ []
unfolding instance_id lit
instance_id-ne-nil n = ground arith
