-- ===== src/Dns.antt =====
-- The DNS responder of binaries/r4a-server/src/main.rs, over byte lists. `lower` is
-- `str::to_lowercase`, which follows the Unicode tables; `forward` is what `dns_forward` brings back
-- from the upstream server.
pub mod Qname
pub mod Queries
use Prim.Native.Nat.{bit_and}
use mathlib.Core.Option
use rust4eska.Prelude.{
  ℕ, zero, suc, ◌+◌, ◌-◌, ◌*◌, Text, text, text_eq, nat_eq, Option, none, some, List, [], ◌∷◌, ◌++◌,
  ◌<>◌, Bool, true, false, ◌&&◌, ◌||◌, ◌==◌, if◌then◌else◌, leb, ltb, nat_beq, length, take, drop,
  find, values, Result, ok, err, to_option, is_digit, is_empty, all,
}
unfoldable use rust4eska.Prelude.{strip_suffix, is_utf8}
use rust4eska.Models.{PeerInfo}
use rust4eska.Backend.{Backend}
use rust4eska.Store.{Store}
use rust4eska.Store.Entities.{get_label_ip}
use rust4eska.Server.Peers.{load_peers, Peers}

-- `labels.join(".")`
abbrev pub join_dots : List Text → Text
join_dots [] = []
join_dots (l ∷ []) = l
join_dots (l ∷ m ∷ ls) = l ++ b'.' ∷ join_dots (m ∷ ls)

unfoldable pub is_pointer : ℕ → Bool
is_pointer len = nat_beq (bit_and len 0xC0) 0xC0

-- The loop of `dns_parse_qname`: each round moves on by one byte at least, so the length of the
-- buffer is fuel enough.
unfoldable pub qname_loop : ℕ → Text → ℕ → List Text → Option (List Text × ℕ)
unfolding is_utf8 is_pointer
qname_loop zero buf pos labels = none
qname_loop (suc fuel) buf pos labels = elim (drop pos buf) [
  | [] ↦ none
  | len ∷ rest ↦
      let next = qname_loop fuel buf (pos + 1 + len) (labels ++ take len rest ∷ []) in
      if nat_beq len 0
      then some (labels, pos + 1)
      else if is_pointer len || ltb (length buf) (pos + 1 + len)
      then none
      else if is_utf8 (take len rest)
      then next
      else none
]

unfoldable pub dns_parse_qname : Text → ℕ → Option (Text × ℕ)
unfolding qname_loop
dns_parse_qname buf start =
    Option.map (λ (found : List Text × ℕ). (join_dots found.0, found.1))
      (qname_loop (suc (length buf)) buf start [])

abbrev pub Ipv4 : Type 0
Ipv4 = ℕ × ℕ × ℕ × ℕ

unfoldable pub dns_a_response : Text → Ipv4 → Text
dns_a_response query (a, b, c, d) =
    take 2 query
    <> 0x81 ∷ 0x80 ∷ 0 ∷ 1 ∷ 0 ∷ 1 ∷ 0 ∷ 0 ∷ 0 ∷ 0 ∷ []
    <> drop 12 query
    <> 0xC0 ∷ 0x0C ∷ 0 ∷ 1 ∷ 0 ∷ 1 ∷ 0 ∷ 0 ∷ 0 ∷ 0x3C ∷ 0 ∷ 4 ∷ a ∷ b ∷ c ∷ d ∷ []

unfoldable pub dns_nxdomain : Text → Text
dns_nxdomain query =
    take 2 query <> 0x81 ∷ 0x83 ∷ 0 ∷ 1 ∷ 0 ∷ 0 ∷ 0 ∷ 0 ∷ 0 ∷ 0 ∷ [] <> drop 12 query

unfoldable pub dns_noerror_empty : Text → Text
dns_noerror_empty query =
    take 2 query <> 0x81 ∷ 0x80 ∷ 0 ∷ 1 ∷ 0 ∷ 0 ∷ 0 ∷ 0 ∷ 0 ∷ 0 ∷ [] <> drop 12 query

-- One octet of an address: one to three digits, no leading zero, at most 255.
unfoldable pub octet : Text → Option ℕ
octet (a ∷ []) = if is_digit a then some (a - 48) else none
octet (a ∷ b ∷ []) =
    if leb b'1' a && is_digit a && is_digit b then some ((a - 48) * 10 + (b - 48)) else none
octet (a ∷ b ∷ c ∷ []) =
    let n = (a - 48) * 100 + (b - 48) * 10 + (c - 48) in
    if leb b'1' a && is_digit a && is_digit b && is_digit c && leb n 255 then some n else none
octet _ = none

-- The first part of a text at a dot, and the rest behind the dot.
abbrev first_part : Text → Text × Option Text
first_part [] = ([], none)
first_part (c ∷ s) =
    let (part, rest) = first_part s in if c == b'.' then ([], some s) else (c ∷ part, rest)

abbrev parts : ℕ → Option Text → List Text
parts zero s = []
parts (suc n) none = []
parts (suc n) (some s) = let (part, rest) = first_part s in part ∷ parts n rest

abbrev four : List Text → Option Ipv4
four (a ∷ b ∷ c ∷ d ∷ []) = Option.bind (octet a) λ w.
    Option.bind (octet b)
      λ x. Option.bind (octet c) λ y. Option.bind (octet d) λ z. some (w, x, y, z)
four _ = none

-- `str::parse::<Ipv4Addr>`; a fifth part is one too many.
unfoldable pub parse_ipv4 : Text → Option Ipv4
unfolding octet
parse_ipv4 s = four (parts 5 (some s))

-- what `rfind('.')` leaves behind the last dot
abbrev after_last_dot : Text → Option Text
after_last_dot [] = none
after_last_dot (c ∷ s) = elim (after_last_dot s) [
  | some rest ↦ some rest
  | none ↦ if c == b'.' then some s else none
]

module _ (B : Backend) (lower : Text → Text) where
  abbrev peer_named : Text → Peers B → Option (PeerInfo B.Float)
  peer_named name peers = find (λ p. lower p.name == name) (values peers)

  abbrev label_ip : Text → Store B → Option Ipv4
  label_ip label store = elim (get_label_ip B label store) [
    | ok found ↦ Option.bind found parse_ipv4
    | err e ↦ none
  ]

  -- a subdomain of a node, else a connection's label
  abbrev below_node : Text → Peers B → Store B → Option Text → Option Ipv4
  below_node label peers store none = label_ip label store
  below_node label peers store (some node_name) = elim (peer_named node_name peers) [
    | some peer ↦ parse_ipv4 peer.ip
    | none ↦ label_ip label store
  ]

  abbrev resolve_label : Store B → Text → Option Ipv4
  resolve_label store label =
      let peers = load_peers B store in
      elim (peer_named label peers) [
        | some peer ↦ parse_ipv4 peer.ip
        | none ↦ below_node label peers store (after_last_dot label)
      ]

  abbrev pub ends_with : Text → Text → Bool
  ends_with s p = elim (strip_suffix s p) [ some r ↦ true | none ↦ false ]

  unfoldable pub dns_resolve : Text → Store B → Option Ipv4
  unfolding parse_ipv4 load_peers get_label_ip
  dns_resolve qname store =
      if qname == text "master.r4a.local" || ends_with qname (text ".master.r4a.local")
      then parse_ipv4 (text "10.42.0.1")
      else Option.bind (strip_suffix qname (text ".r4a.local")) (resolve_label store)

  unfoldable pub is_ours : Text → Bool
  is_ours qname_lower = qname_lower == text "r4a.local" || ends_with qname_lower (text ".r4a.local")

  -- the answer for a name of the cluster, by the type of the query
  unfoldable pub answer : Text → ℕ → Text → Store B → Text
  unfolding dns_resolve dns_a_response dns_nxdomain dns_noerror_empty
  answer query qtype qname_lower store =
      if nat_beq qtype 28
      then dns_noerror_empty query
      else if nat_beq qtype 1 || nat_beq qtype 255
      then (elim (dns_resolve qname_lower store) [
        | some ip ↦ dns_a_response query ip
        | none ↦ dns_nxdomain query
      ])
      else dns_noerror_empty query

  -- the rest of the handler, at the bytes behind the name
  abbrev dispatch : Option Text → Text → Text → Store B → Text → Option Text
  dispatch forward query qname store (hi ∷ lo ∷ c ∷ d ∷ rest) =
      if is_ours (lower qname)
      then some (answer query (hi * 256 + lo) (lower qname) store)
      else forward
  dispatch forward query qname store _ = none

  unfoldable pub handle_dns_query : Option Text → Text → Store B → Option Text
  unfolding dns_parse_qname is_ours answer
  handle_dns_query forward query store =
      if ltb (length query) 13
      then none
      else Option.bind (dns_parse_qname query 12)
          (λ found. dispatch forward query found.0 store (drop found.1 query))
