-- ===== src/Tests/Queries.antt =====
-- DNS queries.
use rust4eska.Prelude.{
  ◌≡◌, inr, ◌↔◌, refl, Text, text, text_eq, nat_eq, none, some, List, [], ◌∷◌, ◌<>◌,
}
unfoldable use rust4eska.Prelude.{}
use mathlib.Core.Option
use rust4eska.Backend.Memory.{memory}
use rust4eska.Dns.{dns_parse_qname, join_dots, handle_dns_query}
use rust4eska.Dns.Qname.{Encoded, dns_parse_qname_iff}
use rust4eska.Dns.Queries.{handle_dns_query-ours}
use rust4eska.Tests.Sample.{store}

-- a query of type A for master.r4a.local
abbrev query : Text
query =
    0x12 ∷ 0x34 ∷ 1 ∷ 0 ∷ 0 ∷ 1 ∷ 0 ∷ 0 ∷ 0 ∷ 0 ∷ 0 ∷ 0 ∷ []
    <> 6 ∷ []
    <> text "master"
    <> 3 ∷ []
    <> text "r4a"
    <> 5 ∷ []
    <> text "local"
    <> 0 ∷ 0 ∷ 1 ∷ 0 ∷ 1 ∷ []

parsed : dns_parse_qname query 12 ≡ some (text "master.r4a.local", 30)
unfolding dns_parse_qname Option.map
parsed = refl

handle_dns_query-ours_example :
    handle_dns_query memory (λ s. s) (some (text "upstream")) query store
    ≡ handle_dns_query memory (λ s. s) none query store
handle_dns_query-ours_example =
    handle_dns_query-ours memory (λ s. s) query (text "master.r4a.local") 30 parsed
      (some (text "upstream")) store (inr (text "master", refl))

dns_parse_qname_iff_example : (dns_parse_qname query 12 ≡ some (text "master.r4a.local", 30)) ↔ (
    (labels : List Text) × (text "master.r4a.local" ≡ join_dots labels)
    × Encoded query 12 labels 30)
dns_parse_qname_iff_example = dns_parse_qname_iff query 12 (text "master.r4a.local") 30
