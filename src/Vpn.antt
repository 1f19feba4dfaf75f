-- ===== src/Vpn.antt =====
-- crates/r4a-vpn/src/wireguard.rs: what may stand in a WireGuard configuration, the configuration
-- files, and the arguments of the `wg` command. Writing the file and running commands is outside;
-- the functions return what is written or run, or the error that comes first.
pub mod Lines
pub mod Injection
use rust4eska.Prelude.{
  ℕ, Text, text, text_eq, nat_eq, List, [], ◌∷◌, ◌++◌, ◌<>◌, Bool, true, false, not, ◌&&◌, ◌||◌,
  all, length, contains, is_empty, is_alphanumeric, nat_beq, ltb, decimal, if◌then◌else◌, Result,
  ok, err, Error, bind,
}

unfoldable pub is_key_char : ℕ → Bool
is_key_char c = is_alphanumeric c || nat_beq c b'+' || nat_beq c b'/' || nat_beq c b'='

unfoldable pub validate_wg_pubkey : Text → Result (Unit {0})
unfolding is_key_char
validate_wg_pubkey key =
    if not (nat_beq (length key) 44)
    then err Error.invalid
    else if not (all is_key_char key)
    then err Error.invalid
    else ok tt

unfoldable pub is_name_char : ℕ → Bool
is_name_char c = is_alphanumeric c || nat_beq c b'-' || nat_beq c b'_' || nat_beq c b'.'

unfoldable pub validate_node_name : Text → Result (Unit {0})
unfolding is_name_char
validate_node_name name =
    if is_empty name || ltb 64 (length name)
    then err Error.invalid
    else if not (all is_name_char name)
    then err Error.invalid
    else ok tt

-- the test on control characters that four functions of the file repeat
unfoldable pub has_control : Text → Bool
has_control s = contains s 10 || contains s 13 || contains s 0

unfoldable pub validate_endpoint : Text → Result (Unit {0})
unfolding has_control
validate_endpoint endpoint =
    if has_control endpoint
    then err Error.invalid
    else if not (contains endpoint b':')
    then err Error.invalid
    else ok tt

unfoldable pub validate_peers : List (Text × Text) → Result (Unit {0})
unfolding validate_wg_pubkey has_control
validate_peers [] = ok tt
validate_peers ((pub_key, peer_ip) ∷ peers) =
    bind (validate_wg_pubkey pub_key)
      (λ u. if has_control peer_ip then err Error.invalid else validate_peers peers)

unfoldable pub peer_sections : List (Text × Text) → Text
peer_sections [] = []
peer_sections ((pub_key, peer_ip) ∷ peers) =
    text "\n[Peer]\nPublicKey = "
    <> pub_key
    <> text "\nAllowedIPs = "
    <> peer_ip
    <> text "/32\nPersistentKeepalive = 25\n"
    <> peer_sections peers

-- `setup_master_with_peers`: the configuration that it writes. `linux` is `cfg!(target_os = "linux")`.
unfoldable pub master_conf : Bool → Text → Text → ℕ → List (Text × Text) → Result Text
unfolding validate_peers peer_sections
master_conf linux private_key vpn_ip listen_port peers = bind (validate_peers peers) λ u. ok (
    text "[Interface]\nPrivateKey = "
    <> private_key
    <> text "\nAddress = "
    <> vpn_ip
    <> text "/24\nListenPort = "
    <> decimal listen_port
    <> text "\n"
    <> (if linux then text "PostUp = sysctl -w net.ipv4.ip_forward=1 || true\n" else [])
    <> peer_sections peers)

-- `setup_agent`
unfoldable pub agent_conf : Text → Text → Text → Text → Result Text
unfolding validate_wg_pubkey validate_endpoint
agent_conf private_key vpn_ip master_pub master_endpoint = bind (validate_wg_pubkey master_pub) λ u.
    bind (validate_endpoint master_endpoint) λ v. ok (
      text "[Interface]\nPrivateKey = "
      <> private_key
      <> text "\nAddress = "
      <> vpn_ip
      <> text "/32\n\n[Peer]\nPublicKey = "
      <> master_pub
      <> text "\nEndpoint = "
      <> master_endpoint
      <> text "\nAllowedIPs = 10.42.0.0/24\nPersistentKeepalive = 25\n")

-- The arguments of the `wg` command, at an interface name.
unfoldable pub add_peer : Text → Text → Text → Result (List Text)
unfolding validate_wg_pubkey has_control
add_peer iface pubkey vpn_ip = bind (validate_wg_pubkey pubkey) λ u.
    if has_control vpn_ip
    then err Error.invalid
    else ok (
        text "set"
        ∷ iface
        ∷ text "peer"
        ∷ pubkey
        ∷ text "allowed-ips"
        ∷ (vpn_ip ++ text "/32")
        ∷ text "persistent-keepalive"
        ∷ text "25"
        ∷ [])

unfoldable pub add_peer_with_endpoint : Text → Text → Text → Text → Result (List Text)
unfolding validate_wg_pubkey validate_endpoint has_control
add_peer_with_endpoint iface pubkey vpn_ip endpoint = bind (validate_wg_pubkey pubkey) λ u.
    bind (validate_endpoint endpoint) λ v.
      if has_control vpn_ip
      then err Error.invalid
      else ok (
          text "set"
          ∷ iface
          ∷ text "peer"
          ∷ pubkey
          ∷ text "endpoint"
          ∷ endpoint
          ∷ text "allowed-ips"
          ∷ (vpn_ip ++ text "/32")
          ∷ text "persistent-keepalive"
          ∷ text "25"
          ∷ [])

unfoldable pub remove_peer : Text → Text → Result (List Text)
unfolding validate_wg_pubkey
remove_peer iface pubkey =
    bind (validate_wg_pubkey pubkey)
      (λ u. ok (text "set" ∷ iface ∷ text "peer" ∷ pubkey ∷ text "remove" ∷ []))
