-- ===== src/Server/Gate.antt =====
-- The middleware `require_vpn_for_api` of binaries/r4a-server/src/main.rs: which addresses may call
-- which paths.
use rust4eska.Prelude.{
  ℕ, ◌≡◌, ◌+◌, ◌*◌, ◌/◌, ◌^◌, ◌<◌, ◌⊎◌, ◌↔◌, Text, text, text_eq, nat_eq, Bool, true, ◌&&◌, ◌||◌,
  ◌==◌, leb, nat_beq, List, [], ◌∷◌, arith, list_beq_iff, Bool-cases, inl, inr, refl,
}

pub data IpAddr : Type 0 where
  v4 : ℕ → ℕ → ℕ → ℕ → IpAddr
  v6 : List ℕ → IpAddr

unfoldable pub is_public : Text → Bool → Bool
is_public path is_post =
    path == text "/"
    || path == text "/api/join"
    || (path == text "/api/connections" && is_post)
    || path == text "/api/ca-cert"

unfoldable pub is_allowed : IpAddr → Bool
is_allowed (v4 a b c d) =
    nat_beq a 127
    || nat_beq a 10
    || (nat_beq a 172 && leb 16 b && leb b 31)
    || (nat_beq a 192 && nat_beq b 168)
is_allowed (v6 segments) = segments == 0 ∷ 0 ∷ 0 ∷ 0 ∷ 0 ∷ 0 ∷ 0 ∷ 1 ∷ []

-- Whether the request goes on to its handler; else the answer is 403.
unfoldable pub require_vpn_for_api : IpAddr → Text → Bool → Bool
unfolding is_public is_allowed
require_vpn_for_api addr path is_post = is_public path is_post || is_allowed addr

-- The address as a 32-bit number.
abbrev pub to_bits : ℕ → ℕ → ℕ → ℕ → ℕ
to_bits a b c d = ((a * 256 + b) * 256 + c) * 256 + d

-- The first `n` bits of the address are those of the network.
abbrev pub InNetwork : ℕ → ℕ → ℕ → Type 0
InNetwork bits network host_bits = bits / 2 ^ host_bits ≡ network / 2 ^ host_bits

-- the address lies in one of the networks that are let through
abbrev pub IsLocal : ℕ → Type 0
IsLocal bits =
    InNetwork bits (to_bits 127 0 0 0) 24
    ⊎ InNetwork bits (to_bits 10 0 0 0) 24
    ⊎ InNetwork bits (to_bits 172 16 0 0) 20
    ⊎ InNetwork bits (to_bits 192 168 0 0) 16

-- the request is for what is served to any address
abbrev pub IsOpen : Text → Bool → Type 0
IsOpen path is_post =
    (path ≡ text "/")
    ⊎ (path ≡ text "/api/join")
    ⊎ ((path ≡ text "/api/connections") × (is_post ≡ true))
    ⊎ (path ≡ text "/api/ca-cert")

is_allowed-IsLocal :
    (a b c d : ℕ)
    → a < 256
    → b < 256
    → c < 256
    → d < 256
    → (is_allowed (v4 a b c d) ≡ true) ↔ IsLocal (to_bits a b c d)
unfolding is_allowed
is_allowed-IsLocal a b c d ha hb hc hd = ground arith

is_public-IsOpen :
    (path : Text) (is_post : Bool) → (is_public path is_post ≡ true) ↔ IsOpen path is_post
unfolding is_public
is_public-IsOpen path is_post = ground (
  arith,
  list_beq_iff path (text "/"),
  list_beq_iff path (text "/api/join"),
  list_beq_iff path (text "/api/connections"),
  list_beq_iff path (text "/api/ca-cert"),
)

-- An IPv4 request passes exactly if it is for "/", "/api/join" or "/api/ca-cert", or is a POST to
-- "/api/connections", or if its address lies in 127.0.0.0/8, 10.0.0.0/8, 172.16.0.0/12 or
-- 192.168.0.0/16: these are more addresses than those of the VPN, 10.42.0.0/16.
pub require_vpn_for_api_iff :
    (a b c d : ℕ) (path : Text) (is_post : Bool)
    → a < 256
    → b < 256
    → c < 256
    → d < 256
    → (require_vpn_for_api (v4 a b c d) path is_post ≡ true)
      ↔ (IsOpen path is_post ⊎ IsLocal (to_bits a b c d))
unfolding require_vpn_for_api
require_vpn_for_api_iff a b c d path is_post ha hb hc hd =
    let open_path = is_public-IsOpen path is_post in
    let local = is_allowed-IsLocal a b c d ha hb hc hd in
    elim (Bool-cases (is_public path is_post)) [
      | inl p ↦ rw (p, require_vpn_for_api) (λ _. inl (open_path.0 p), λ _. refl)
      | inr p ↦
          rw (p, require_vpn_for_api)
            (
              λ h. inr (local.0 h),
              λ r. elim r [ inl o ↦ absurd (cc (open_path.1 o, p)) | inr l ↦ local.1 l ],
            )
    ]
