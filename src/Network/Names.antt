-- ===== src/Network/Names.antt =====
-- TAP names: the prefix `dvr-t-` and at most nine bytes of the instance's id.
use drover_runner.Base.{
  Text, ◌++◌, lit, ◌≤◌, length, take, take_all, length-take, ltb, ltb→ge, Bool-cases, inl, inr, ◌≡◌,
  arith,
}
use drover_runner.Network.{tap_name}

-- The name is the prefix and the first nine bytes of the id, whatever its length.
pub tap_name-take : (id : Text) → tap_name id ≡ lit "dvr-t-" ++ take 9 id
unfolding tap_name lit
tap_name-take id = elim (Bool-cases (ltb 15 (length (lit "dvr-t-" ++ id)))) [
  | inl long ↦ rw long
  | inr short ↦
      rw (short, take_all 9 id (omega (arith, ltb→ge 15 (length (lit "dvr-t-" ++ id)) short)))
]

-- A TAP name has at most 15 bytes, the limit of Linux, for every instance id.
pub length-tap_name : (id : Text) → length (tap_name id) ≤ 15
unfolding lit
length-tap_name id = rw tap_name-take (omega (arith, length-take 9 id))
