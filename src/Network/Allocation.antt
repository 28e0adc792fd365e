-- ===== src/Network/Allocation.antt =====
-- The TAP device of an instance: what AllocateTAP and ReleaseTAP leave on the host.
use drover_runner.Base.{Text, lit, ◌==◌, Bool, true, false, if◌then◌else◌, ◌≡◌, arith}
use drover_runner.Host.{Host, Log, Error, ok, err}
use drover_runner.Host.Ledger.{held, is_run}
use drover_runner.Network.{tap_name, generate_mac}
use drover_runner.Network.Linux.{
  LinuxNetworkManager, tap_add, link_delete, delete_link, allocate_tap,
}

-- The device is there: its creation succeeded and its deletion was not asked for since.
unfoldable pub tap_held : Text → Log → Bool
unfolding held is_run
tap_held tap = held (is_run (tap_add tap)) (is_run (link_delete tap))

module _ (h : Host) where
  -- Deleting a link gives that device back and no other.
  pub tap_held-delete_link :
      (t u : Text) (l : Log)
      → tap_held t (delete_link h u l).1 ≡ (if t == u then false else tap_held t l)
  unfolding tap_held delete_link lit ◌==◌
  tap_held-delete_link t u l = ground arith

  module _ (m : LinuxNetworkManager) (sha256 : Text → Text) (t id : Text) (l : Log) where
    -- AllocateTAP that succeeds leaves the device of the instance there and every other device as it
    -- was, and reports its name and MAC address.
    pub tap_held-allocate_tap_ok :
        {r : Text × Text}
        → (allocate_tap h m sha256 id l).0 ≡ ok r
        → (tap_held t (allocate_tap h m sha256 id l).1
            ≡ (if t == tap_name id then true else tap_held t l))
          × (r ≡ (tap_name id, generate_mac sha256 id))
    unfolding allocate_tap tap_held lit ◌==◌
    tap_held-allocate_tap_ok e = ground arith

    -- AllocateTAP that fails leaves no device there that was not there before.
    pub tap_held-allocate_tap_err :
        {e : Error}
        → (allocate_tap h m sha256 id l).0 ≡ err e
        → tap_held t (allocate_tap h m sha256 id l).1 ≡ true
        → tap_held t l ≡ true
    unfolding allocate_tap tap_held lit ◌==◌
    tap_held-allocate_tap_err e k = ground arith
