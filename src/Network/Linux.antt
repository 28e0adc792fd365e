-- ===== src/Network/Linux.antt =====
-- linuxNetworkManager: the ip and iptables commands that set up the bridge and the TAP devices.
-- The progress lines that it prints are left out.
use drover_runner.Base.{Text, ◌++◌, lit, split, List, [], ◌∷◌}
use drover_runner.Host.{Host, M, pure, context, on_error, ignore, or_else, perform, run, ◌>>◌}
use drover_runner.Network.{NetworkManager, tap_name, generate_mac}

pub record LinuxNetworkManager : Type 0 where
  pub bridge_name : Text
  pub bridge_ip : Text

-- The prefix of a class B network, `a.b.0.0/n` for the address `a.b.c.d/n`.
unfoldable pub class_b : List Text → Text → Text
class_b (a ∷ b ∷ c ∷ d ∷ []) bits = a ++ lit "." ++ b ++ lit ".0.0/" ++ bits
class_b _ bits = lit "172.20.0.0/16"

unfoldable pub subnet_of_parts : List Text → Text
unfolding class_b
subnet_of_parts (address ∷ bits ∷ []) = class_b (split b'.' address) bits
subnet_of_parts _ = lit "172.20.0.0/16"

-- The subnet for NAT masquerading.
unfoldable pub subnet : Text → Text
unfolding subnet_of_parts
subnet bridge_ip = subnet_of_parts (split b'/' bridge_ip)

-- The commands, as the argument lists of exec.CommandContext.
module _ (m : LinuxNetworkManager) where
  unfoldable pub show_bridge : List Text
  show_bridge = lit "ip" ∷ lit "link" ∷ lit "show" ∷ m.bridge_name ∷ []

  unfoldable pub add_bridge : List Text
  add_bridge =
      lit "ip"
      ∷ lit "link"
      ∷ lit "add"
      ∷ lit "name"
      ∷ m.bridge_name
      ∷ lit "type"
      ∷ lit "bridge"
      ∷ []

  unfoldable pub add_address : List Text
  add_address = lit "ip" ∷ lit "addr" ∷ lit "add" ∷ m.bridge_ip ∷ lit "dev" ∷ m.bridge_name ∷ []

  unfoldable pub bridge_up : List Text
  bridge_up = lit "ip" ∷ lit "link" ∷ lit "set" ∷ lit "dev" ∷ m.bridge_name ∷ lit "up" ∷ []

  -- The four rules, each with `-D` or `-A` as its action.
  unfoldable pub masquerade : Text → List Text
  masquerade action =
      lit "iptables"
      ∷ lit "-t"
      ∷ lit "nat"
      ∷ action
      ∷ lit "POSTROUTING"
      ∷ lit "-s"
      ∷ subnet m.bridge_ip
      ∷ lit "!"
      ∷ lit "-o"
      ∷ m.bridge_name
      ∷ lit "-j"
      ∷ lit "MASQUERADE"
      ∷ []

  unfoldable pub forward_out : Text → List Text
  forward_out action =
      lit "iptables"
      ∷ action
      ∷ lit "FORWARD"
      ∷ lit "-i"
      ∷ m.bridge_name
      ∷ lit "!"
      ∷ lit "-o"
      ∷ m.bridge_name
      ∷ lit "-j"
      ∷ lit "ACCEPT"
      ∷ []

  unfoldable pub forward_back : Text → List Text
  forward_back action =
      lit "iptables"
      ∷ action
      ∷ lit "FORWARD"
      ∷ lit "-o"
      ∷ m.bridge_name
      ∷ lit "-m"
      ∷ lit "conntrack"
      ∷ lit "--ctstate"
      ∷ lit "RELATED,ESTABLISHED"
      ∷ lit "-j"
      ∷ lit "ACCEPT"
      ∷ []

  unfoldable pub isolate : Text → List Text
  isolate action =
      lit "iptables"
      ∷ action
      ∷ lit "FORWARD"
      ∷ lit "-i"
      ∷ m.bridge_name
      ∷ lit "-o"
      ∷ m.bridge_name
      ∷ lit "-j"
      ∷ lit "DROP"
      ∷ []

abbrev pub tap_add : Text → List Text
tap_add tap = lit "ip" ∷ lit "tuntap" ∷ lit "add" ∷ lit "dev" ∷ tap ∷ lit "mode" ∷ lit "tap" ∷ []

abbrev pub tap_attach : Text → Text → List Text
tap_attach tap bridge =
    lit "ip" ∷ lit "link" ∷ lit "set" ∷ lit "dev" ∷ tap ∷ lit "master" ∷ bridge ∷ []

abbrev pub link_set : Text → Text → List Text
link_set state tap = lit "ip" ∷ lit "link" ∷ lit "set" ∷ lit "dev" ∷ tap ∷ state ∷ []

abbrev pub link_delete : Text → List Text
link_delete tap = lit "ip" ∷ lit "link" ∷ lit "delete" ∷ lit "dev" ∷ tap ∷ []

module _ (h : Host) where
  abbrev pub exec : List Text → M (Unit {0})
  exec args = perform h (run args)

  unfoldable pub delete_link : Text → M (Unit {0})
  delete_link tap = ignore (exec (link_set (lit "down") tap)) >> exec (link_delete tap)

  module _ (m : LinuxNetworkManager) where
    -- What SetupBridge does once the bridge is known to be missing.
    unfoldable pub make_bridge : M (Unit {0})
    make_bridge = do
      context (exec (add_bridge m)) (lit "failed to create bridge")
      context (exec (add_address m)) (lit "failed to bind bridge address")
      context (exec (bridge_up m)) (lit "failed to enable bridge link")
      ignore (exec (masquerade m (lit "-D")))
      context (exec (masquerade m (lit "-A"))) (lit "failed to inject NAT masquerade")
      ignore (exec (forward_out m (lit "-D")))
      context (exec (forward_out m (lit "-A"))) (lit "failed to allow forward out")
      ignore (exec (forward_back m (lit "-D")))
      context (exec (forward_back m (lit "-A"))) (lit "failed to allow established return forward")
      ignore (exec (isolate m (lit "-D")))
      context (exec (isolate m (lit "-A"))) (lit "failed to inject tenant isolation drops")

    -- `if exec.CommandContext(...).Run() == nil { return nil }`
    unfoldable pub setup_bridge : M (Unit {0})
    unfolding make_bridge
    setup_bridge l = or_else (exec (show_bridge m) l) (λ _. make_bridge)

    unfoldable pub allocate_tap : (Text → Text) → Text → M (Text × Text)
    unfolding tap_name generate_mac delete_link
    allocate_tap sha256 id = do
      let tap = tap_name id
      context (exec (tap_add tap)) (lit "failed to create TAP link")
      on_error (exec (tap_attach tap m.bridge_name)) (ignore (delete_link tap))
          (lit "failed to link TAP to bridge")
      on_error (exec (link_set (lit "up") tap)) (ignore (delete_link tap))
          (lit "failed to enable TAP link")
      pure (tap, generate_mac sha256 id)

    unfoldable pub release_tap : Text → M (Unit {0})
    unfolding tap_name delete_link
    release_tap id = delete_link (tap_name id)

  unfoldable pub linux_manager : (Text → Text) → LinuxNetworkManager → NetworkManager
  unfolding setup_bridge allocate_tap release_tap
  linux_manager sha256 m = record {
    setup_bridge = setup_bridge m;
    allocate_tap = allocate_tap m sha256;
    release_tap = release_tap m;
  }
