-- ===== src/Daemon/Taps.antt =====
-- The TAP names of the ids that the server makes: which of them clash.
use drover_runner.Base.{
  ◌++◌, lit, ℕ, ◌+◌, ◌*◌, ◌≤◌, ◌<◌, length, take, take-append, take_all, decimal, decimal_snoc,
  length-decimal, length-decimal_large, decimal_injective, [], ◌∷◌, ◌≡◌, ◌≢◌, refl, sym, ◌∙◌, arith,
}
use drover_runner.Network.{tap_name}
use drover_runner.Network.Names.{tap_name-take}
use drover_runner.Daemon.Ids.{instance_id, instance_id_injective}

-- Of an id's nine bytes, five are `inst-`: four digits are left.
pub tap_name-instance_id :
    (n : ℕ) → tap_name (instance_id n) ≡ lit "dvr-t-inst-" ++ take 4 (decimal n)
unfolding instance_id lit
tap_name-instance_id n = tap_name-take (instance_id n)

-- Below 10000 the device names of different instances differ.
pub tap_name-instance_id_injective :
    (n m : ℕ) → n < 10000 → m < 10000 → tap_name (instance_id n) ≡ tap_name (instance_id m) → n ≡ m
unfolding lit
tap_name-instance_id_injective n m hn hm e =
    let short_n : take 4 (decimal n) ≡ decimal n = take_all 4 (decimal n) (length-decimal 3 n hn) in
    let short_m : take 4 (decimal m) ≡ decimal m = take_all 4 (decimal m) (length-decimal 3 m hm) in
    let same : lit "dvr-t-inst-" ++ take 4 (decimal n) ≡ lit "dvr-t-inst-" ++ take 4 (decimal m) =
      sym (tap_name-instance_id n) ∙ e ∙ tap_name-instance_id m in
    decimal_injective n m (sym short_n ∙ (cc same) ∙ short_m)

-- From 1000 on, a number and each of its ten continuations by one digit share their device.
pub tap_name_clash :
    (n d : ℕ)
    → 1000 ≤ n
    → d < 10
    → (tap_name (instance_id (n * 10 + d)) ≡ tap_name (instance_id n))
      × (instance_id (n * 10 + d) ≢ instance_id n)
tap_name_clash n d h k =
    let long : 4 ≤ length (decimal n) = length-decimal_large 3 n h in
    (
      rw
          (
            tap_name-instance_id,
            tap_name-instance_id,
            decimal_snoc n d (omega arith) k,
            take-append 4 (decimal n) ((d + 48) ∷ []) long,
          )
          refl,
      λ e. absurd (omega (arith, instance_id_injective (n * 10 + d) n e)),
    )
