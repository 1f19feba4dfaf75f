-- ===== src/Tests/Network.antt =====
-- WireGuard configurations.
use rust4eska.Prelude.{◌≡◌, refl, Text, text, true, ok, err, Error, List, [], ◌∷◌, ◌<>◌}
unfoldable use rust4eska.Prelude.{decimal}
use rust4eska.Vpn.{master_conf, agent_conf, validate_node_name}
use rust4eska.Vpn.Lines.{lines}
use rust4eska.Vpn.Injection.{master_lines, master_conf-lines, agent_lines, agent_conf-lines}
use rust4eska.Tests.Sample.{key_a, key_b}

abbrev peers : List (Text × Text)
peers = (key_a, text "10.42.0.2") ∷ []

-- an address with a line of its own is refused
smuggled :
    master_conf true
      (text "priv")
      (text "10.42.0.1")
      51820
      ((key_a, text "10.42.0.2\nPostUp = x") ∷ [])
    ≡ err Error.invalid
unfolding master_conf
smuggled = refl

abbrev written : Text
written =
    text "[Interface]\nPrivateKey = priv\nAddress = 10.42.0.1/24\nListenPort = 51820\n"
    <> text "PostUp = sysctl -w net.ipv4.ip_forward=1 || true\n"
    <> text "\n[Peer]\nPublicKey = "
    <> key_a
    <> text "\nAllowedIPs = 10.42.0.2/32\nPersistentKeepalive = 25\n"

master_conf-written : master_conf true (text "priv") (text "10.42.0.1") 51820 peers ≡ ok written
unfolding master_conf decimal
master_conf-written = refl

master_conf-lines_example :
    lines written ≡ master_lines true (text "priv") (text "10.42.0.1") 51820 peers
master_conf-lines_example =
    master_conf-lines true (text "priv") (text "10.42.0.1") 51820 peers written refl refl
      master_conf-written

abbrev agent_written : Text
agent_written =
    text "[Interface]\nPrivateKey = priv\nAddress = 10.42.0.2/32\n\n[Peer]\nPublicKey = "
    <> key_b
    <> text "\nEndpoint = 1.2.3.4:51820\nAllowedIPs = 10.42.0.0/24\nPersistentKeepalive = 25\n"

agent_conf_written :
    agent_conf (text "priv") (text "10.42.0.2") key_b (text "1.2.3.4:51820") ≡ ok agent_written
unfolding agent_conf
agent_conf_written = refl

agent_conf-lines_example :
    lines agent_written ≡ agent_lines (text "priv") (text "10.42.0.2") key_b (text "1.2.3.4:51820")
agent_conf-lines_example =
    agent_conf-lines (text "priv") (text "10.42.0.2") key_b (text "1.2.3.4:51820") agent_written
      refl refl agent_conf_written

node_name_with_space : validate_node_name (text "my node") ≡ err Error.invalid
unfolding validate_node_name
node_name_with_space = refl
