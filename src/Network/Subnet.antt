-- ===== src/Network/Subnet.antt =====
-- The subnet that SetupBridge derives from the bridge's address.
use drover_runner.Base.{
  Text, ◌++◌, lit, Lacks, Lacks-append, split, split_of_Lacks, split-append_sep, [], ◌∷◌, ◌≡◌, ap,
  ◌∙◌, arith,
}
use drover_runner.Network.Linux.{subnet, subnet_of_parts, class_b}

-- The text a.b.c.d.
abbrev pub dotted : Text → Text → Text → Text → Text
dotted a b c d = a ++ (b'.' ∷ (b ++ (b'.' ∷ (c ++ (b'.' ∷ d)))))

-- A part of an address holds no dot and no slash.
abbrev pub IsPart : Text → Type 0
IsPart a = Lacks b'.' a × Lacks b'/' a

Lacks-slash-dotted :
    (a b c d : Text)
    → Lacks b'/' a
    → Lacks b'/' b
    → Lacks b'/' c
    → Lacks b'/' d
    → Lacks b'/' (dotted a b c d)
Lacks-slash-dotted a b c d ha hb hc hd = Lacks-append b'/' a _ ha (
  omega arith,
  Lacks-append b'/' b _ hb (omega arith, Lacks-append b'/' c _ hc (omega arith, hd)),
)

split-dotted :
    (a b c d : Text)
    → Lacks b'.' a
    → Lacks b'.' b
    → Lacks b'.' c
    → Lacks b'.' d
    → split b'.' (dotted a b c d) ≡ a ∷ b ∷ c ∷ d ∷ []
split-dotted a b c d ha hb hc hd =
    split-append_sep b'.' a _ ha
    ∙ ap (λ r. a ∷ r)
        (split-append_sep b'.' b _ hb
          ∙ ap (λ r. b ∷ r)
              (split-append_sep b'.' c d hc ∙ ap (λ r. c ∷ r) (split_of_Lacks b'.' d hd)))

split-address :
    (address n : Text)
    → Lacks b'/' address
    → Lacks b'/' n
    → split b'/' (address ++ b'/' ∷ n) ≡ address ∷ n ∷ []
split-address address n h k =
    split-append_sep b'/' address n h ∙ ap (λ r. address ∷ r) (split_of_Lacks b'/' n k)

-- For an address a.b.c.d/n in dotted form, whose parts hold no dot and no slash, the subnet is
-- a.b.0.0/n.
pub subnet-dotted :
    (a b c d n : Text)
    → IsPart a
    → IsPart b
    → IsPart c
    → IsPart d
    → Lacks b'/' n
    → subnet (dotted a b c d ++ b'/' ∷ n) ≡ a ++ lit "." ++ b ++ lit ".0.0/" ++ n
unfolding subnet
subnet-dotted a b c d n (pa, qa) (pb, qb) (pc, qc) (pd, qd) hn =
    ap subnet_of_parts
      (split-address (dotted a b c d) n (Lacks-slash-dotted a b c d qa qb qc qd) hn)
    ∙ ap (λ parts. class_b parts n) (split-dotted a b c d pa pb pc pd)

-- An address with no mask gets the subnet of the default bridge.
pub subnet_of_no_mask : (address : Text) → Lacks b'/' address → subnet address ≡ lit "172.20.0.0/16"
unfolding subnet
subnet_of_no_mask address h = ap subnet_of_parts (split_of_Lacks b'/' address h)
