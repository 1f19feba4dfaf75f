-- ===== src/Vpn/Injection.antt =====
-- No directive can be smuggled into a configuration through the fields that are checked.
use rust4eska.Prelude.{
  ℕ, ◌≡◌, refl, Text, text, List, [], ◌∷◌, ◌++◌, ◌<>◌, Bool, true, false, all, contains,
  if◌then◌else◌, arith, inl, inr, ok, Result-cases, eq_of_ok, decimal, decimal-digits, is_digit,
  nat_beq_iff,
}
use rust4eska.Vpn.{
  validate_wg_pubkey, is_key_char, has_control, validate_endpoint, validate_peers, peer_sections,
  master_conf, agent_conf,
}
use rust4eska.Vpn.Lines.{lines, lines-nil, line_step, line_step_two}

contains-all :
    (f : ℕ → Bool) (c : ℕ) (s : Text) → f c ≡ false → all f s ≡ true → contains s c ≡ false
contains-all f c [] h a = refl
contains-all f c (x ∷ s) h a = ground (arith, contains-all f c s h, nat_beq_iff x c)

key_no_newline : (key : Text) → validate_wg_pubkey key ≡ ok tt → contains key 10 ≡ false
unfolding validate_wg_pubkey
key_no_newline key h = contains-all is_key_char 10 key refl (ground arith)

control_no_newline : (s : Text) → has_control s ≡ false → contains s 10 ≡ false
unfolding has_control
control_no_newline s h = ground arith

endpoint_no_newline : (s : Text) → validate_endpoint s ≡ ok tt → contains s 10 ≡ false
unfolding validate_endpoint
endpoint_no_newline s h = control_no_newline s (ground arith)

decimal_no_newline : (n : ℕ) → contains (decimal n) 10 ≡ false
decimal_no_newline n = contains-all is_digit 10 (decimal n) refl (decimal-digits n)

-- The lines of the sections of some peers, behind a line that has ended.
abbrev pub peer_lines : List (Text × Text) → List Text
peer_lines [] = [] ∷ []
peer_lines ((pub_key, peer_ip) ∷ peers) =
    []
    ∷ text "[Peer]"
    ∷ (text "PublicKey = " ++ pub_key)
    ∷ (text "AllowedIPs = " <> peer_ip <> text "/32")
    ∷ text "PersistentKeepalive = 25"
    ∷ peer_lines peers

lines-peer_sections :
    (peers : List (Text × Text))
    → validate_peers peers ≡ ok tt
    → lines (peer_sections peers) ≡ peer_lines peers
unfolding validate_peers peer_sections
lines-peer_sections [] h = lines-nil
lines-peer_sections ((k, ip) ∷ peers) h =
    let hk : contains k 10 ≡ false = key_no_newline k (ground arith) in
    let hi : contains ip 10 ≡ false = control_no_newline ip (ground arith) in
    let rest : validate_peers peers ≡ ok tt = ground arith in
    line_step [] _ _ refl (
      line_step (text "[Peer]") _ _ refl (
        line_step (text "PublicKey = " ++ k) _ _ hk (
          line_step_two (text "AllowedIPs = " ++ ip) (text "/32") _ _ hi refl (
            line_step (text "PersistentKeepalive = 25") _ _ refl
              (lines-peer_sections peers rest)))))

-- The lines of the file that `setup_master_with_peers` writes.
abbrev pub master_lines : Bool → Text → Text → ℕ → List (Text × Text) → List Text
master_lines linux private_key vpn_ip listen_port peers =
    text "[Interface]"
    ∷ (text "PrivateKey = " ++ private_key)
    ∷ (text "Address = " <> vpn_ip <> text "/24")
    ∷ (text "ListenPort = " ++ decimal listen_port)
    ∷ (if linux
        then text "PostUp = sysctl -w net.ipv4.ip_forward=1 || true" ∷ peer_lines peers
        else peer_lines peers)

lines-post_up :
    (linux : Bool) (peers : List (Text × Text))
    → validate_peers peers ≡ ok tt
    → lines (
        (if linux then text "PostUp = sysctl -w net.ipv4.ip_forward=1 || true\n" else [])
        <> peer_sections peers)
      ≡ (if linux
          then text "PostUp = sysctl -w net.ipv4.ip_forward=1 || true" ∷ peer_lines peers
          else peer_lines peers)
lines-post_up true peers h =
    line_step (text "PostUp = sysctl -w net.ipv4.ip_forward=1 || true") _ _ refl
      (lines-peer_sections peers h)
lines-post_up false peers h = lines-peer_sections peers h

-- Whatever the peers, if `setup_master_with_peers` writes a file, its lines are those of the
-- interface and five for each peer, with the peer's key and address: no field of a peer adds a line.
-- The master's own key and address are taken to hold no newline.
pub master_conf-lines :
    (linux : Bool) (private_key vpn_ip : Text) (listen_port : ℕ) (peers : List (Text × Text))
    (conf : Text)
    → contains private_key 10 ≡ false
    → contains vpn_ip 10 ≡ false
    → master_conf linux private_key vpn_ip listen_port peers ≡ ok conf
    → lines conf ≡ master_lines linux private_key vpn_ip listen_port peers
unfolding master_conf
master_conf-lines linux private_key vpn_ip listen_port peers conf hk hi h =
    elim (Result-cases (validate_peers peers)) [
      | inl (e, p) ↦ absurd (ground arith)
      | inr (u, p) ↦ rw (← eq_of_ok (rw (p, master_conf) at h)) (
          line_step (text "[Interface]") _ _ refl (
            line_step (text "PrivateKey = " ++ private_key) _ _ hk (
              line_step_two (text "Address = " ++ vpn_ip) (text "/24") _ _ hi refl (
                line_step (text "ListenPort = " ++ decimal listen_port) _ _
                  (decimal_no_newline listen_port) (lines-post_up linux peers p)))))
    ]

-- The lines of the file that `setup_agent` writes.
abbrev pub agent_lines : Text → Text → Text → Text → List Text
agent_lines private_key vpn_ip master_pub master_endpoint =
    text "[Interface]"
    ∷ (text "PrivateKey = " ++ private_key)
    ∷ (text "Address = " <> vpn_ip <> text "/32")
    ∷ []
    ∷ text "[Peer]"
    ∷ (text "PublicKey = " ++ master_pub)
    ∷ (text "Endpoint = " ++ master_endpoint)
    ∷ text "AllowedIPs = 10.42.0.0/24"
    ∷ text "PersistentKeepalive = 25"
    ∷ []
    ∷ []

-- Whatever key and endpoint the master has answered with, if `setup_agent` writes a file, it has the
-- lines of one interface and one peer. The agent's own key and address are taken to hold no newline.
pub agent_conf-lines :
    (private_key vpn_ip master_pub master_endpoint conf : Text)
    → contains private_key 10 ≡ false
    → contains vpn_ip 10 ≡ false
    → agent_conf private_key vpn_ip master_pub master_endpoint ≡ ok conf
    → lines conf ≡ agent_lines private_key vpn_ip master_pub master_endpoint
unfolding agent_conf
agent_conf-lines private_key vpn_ip master_pub master_endpoint conf hk hi h =
    elim (Result-cases (validate_wg_pubkey master_pub)) [
      | inl (e, p) ↦ absurd (ground arith)
      | inr (u, p) ↦ elim (Result-cases (validate_endpoint master_endpoint)) [
        | inl (e, q) ↦ absurd (ground arith)
        | inr (v, q) ↦ rw (← eq_of_ok (rw (p, q, agent_conf) at h)) (
            line_step (text "[Interface]") _ _ refl (
              line_step (text "PrivateKey = " ++ private_key) _ _ hk (
                line_step_two (text "Address = " ++ vpn_ip) (text "/32") _ _ hi refl (
                  line_step [] _ _ refl (
                    line_step (text "[Peer]") _ _ refl (
                      line_step (text "PublicKey = " ++ master_pub) _ _
                        (key_no_newline master_pub p)
                        (line_step (text "Endpoint = " ++ master_endpoint) _ _
                          (endpoint_no_newline master_endpoint q)
                          (line_step (text "AllowedIPs = 10.42.0.0/24") _ _ refl
                            (line_step (text "PersistentKeepalive = 25") _ _ refl lines-nil)))))))))
      ]
    ]
