-- ===== src/Dns/Queries.antt =====
-- Who answers a query: the master for the names of the cluster, the upstream server for all others.
use rust4eska.Prelude.{
  ℕ, ◌≡◌, ◌⊎◌, ◌++◌, ◌||◌, ◌==◌, Bool, text, strip_suffix-append, refl, inl, inr, Text, text_eq,
  nat_eq, arith, Option, none, some, [], ◌∷◌, true, drop, Bool-cases, ltb, length,
}
use mathlib.Core.Option
use rust4eska.Backend.{Backend}
use rust4eska.Store.{Store}
use rust4eska.Dns.{dns_parse_qname, is_ours, ends_with, handle_dns_query, dispatch}

or_true : (a b : Bool) → b ≡ true → (a || b) ≡ true
or_true a b e = ground arith

module _ (B : Backend) (lower : Text → Text) (query qname : Text) (pos : ℕ)
    (parsed : dns_parse_qname query 12 ≡ some (qname, pos)) where
  dispatch_ours :
      (forward : Option Text) (store : Store B) (rest : Text)
      → is_ours B lower (lower qname) ≡ true
      → dispatch B lower forward query qname store rest
        ≡ dispatch B lower none query qname store rest
  dispatch_ours forward store [] h = refl
  dispatch_ours forward store (a ∷ []) h = refl
  dispatch_ours forward store (a ∷ b ∷ []) h = refl
  dispatch_ours forward store (a ∷ b ∷ c ∷ []) h = refl
  dispatch_ours forward store (a ∷ b ∷ c ∷ d ∷ rest) h = rw h refl

  ends_with-append : (sub suffix : Text) → ends_with B lower (sub ++ suffix) suffix ≡ true
  ends_with-append sub suffix = rw (ends_with, strip_suffix-append sub suffix) refl

  is_ours_lem :
      (name : Text)
      → (name ≡ text "r4a.local") ⊎ ((sub : Text) × (name ≡ sub ++ text ".r4a.local"))
      → is_ours B lower name ≡ true
  unfolding is_ours
  is_ours_lem name (inl e) = rw (e, is_ours) refl
  is_ours_lem name (inr (sub, e)) =
      rw (e, is_ours)
        (or_true (sub ++ text ".r4a.local" == text "r4a.local")
          (ends_with B lower (sub ++ text ".r4a.local") (text ".r4a.local"))
          (ends_with-append sub (text ".r4a.local")))

  -- For a query whose name, in lower case, is "r4a.local" or ends in ".r4a.local", the reply is the same whatever the upstream server would answer.
  pub handle_dns_query-ours :
      (forward : Option Text) (store : Store B)
      → (lower qname ≡ text "r4a.local") ⊎ ((sub : Text) × (lower qname ≡ sub ++ text ".r4a.local"))
      → handle_dns_query B lower forward query store ≡ handle_dns_query B lower none query store
  unfolding handle_dns_query Option.bind
  handle_dns_query-ours forward store h = elim (Bool-cases (ltb (length query) 13)) [
    | inl short ↦ rw (short, handle_dns_query) refl
    | inr long ↦
        rw (long, parsed, handle_dns_query)
          (dispatch_ours forward store (drop pos query) (is_ours_lem (lower qname) h))
  ]
