-- ===== src/Dns/Qname.antt =====
-- What `dns_parse_qname` reads: an encoded name, described without the loop and its fuel.
use mathlib.Core.List.{append-nil, append_assoc}
use rust4eska.Prelude.{
  is_utf8, ℕ, zero, suc, ◌+◌, ◌≤◌, ◌<◌, ◌≡◌, ◌↔◌, refl, ap, sym, ◌∙◌, subst, ◌⊎◌, inl, inr, Text,
  text_eq, nat_eq, none, some, eq_of_some, Option-cases, List, [], ◌∷◌, ◌++◌, true, false, ◌||◌,
  arith, drop, take, Bool-cases, ltb, nat_beq, length, if◌then◌else◌,
}
use rust4eska.Dns.{qname_loop, is_pointer, join_dots, dns_parse_qname}

-- From position `pos` on, the buffer holds labels, each behind its length, and then a zero, behind
-- which is the position `end`.
pub data Encoded (buf : Text) : ℕ → List Text → ℕ → Type 0 where
  root : {pos : ℕ} (rest : Text) → drop pos buf ≡ 0 ∷ rest → Encoded buf pos [] (pos + 1)
  label :
      {pos end : ℕ} {labels : List Text} (len : ℕ) (rest : Text)
      → drop pos buf ≡ len ∷ rest
      → nat_beq len 0 ≡ false
      → is_pointer len ≡ false
      → ltb (length buf) (pos + 1 + len) ≡ false
      → is_utf8 (take len rest) ≡ true
      → Encoded buf (pos + 1 + len) labels end
      → Encoded buf pos (take len rest ∷ labels) end

List-cases : (xs : Text) → (xs ≡ []) ⊎ ((len : ℕ) × (rest : Text) × (xs ≡ len ∷ rest))
List-cases [] = inl refl
List-cases (c ∷ xs) = inr (c, xs, refl)

drop-all : (n : ℕ) (buf : Text) → length buf ≤ n → drop n buf ≡ []
drop-all zero [] h = refl
drop-all (suc n) [] h = refl
drop-all zero (c ∷ buf) h = absurd (omega arith)
drop-all (suc n) (c ∷ buf) h = drop-all n buf (omega arith)

drop-length : (n : ℕ) (buf : Text) (c : ℕ) (rest : Text) → drop n buf ≡ c ∷ rest → n < length buf
drop-length n buf c rest h = elim (Bool-cases (ltb n (length buf))) [
  | inl lt ↦ ground arith
  | inr ge ↦ absurd (ground (arith, drop-all n buf))
]

module _ (buf : Text) where
  qname_loop_sound :
      (fuel : ℕ) (pos : ℕ) (before found : List Text) (end : ℕ)
      → qname_loop fuel buf pos before ≡ some (found, end)
      → (labels : List Text) × (found ≡ before ++ labels) × Encoded buf pos labels end
  unfolding qname_loop
  qname_loop_sound zero pos before found end h = absurd (cc h)
  qname_loop_sound (suc fuel) pos before found end h = elim (List-cases (drop pos buf)) [
    | inl p ↦ absurd (cc (rw (p, qname_loop) at h))
    | inr (len, rest, p) ↦
        of_byte len rest p (λ pos' before' g. qname_loop_sound fuel pos' before' found end g)
          (rw (p, qname_loop) at h)
  ]
    where
      of_byte :
          (len : ℕ) (rest : Text)
          → drop pos buf ≡ len ∷ rest
          → ((pos' : ℕ) (before' : List Text)
              → qname_loop fuel buf pos' before' ≡ some (found, end)
              → (labels : List Text) × (found ≡ before' ++ labels) × Encoded buf pos' labels end)
          → (if nat_beq len 0
              then some (before, pos + 1)
              else if is_pointer len || ltb (length buf) (pos + 1 + len)
              then none
              else if is_utf8 (take len rest)
              then qname_loop fuel buf (pos + 1 + len) (before ++ take len rest ∷ [])
              else none)
            ≡ some (found, end)
          → (labels : List Text) × (found ≡ before ++ labels) × Encoded buf pos labels end
      of_byte len rest p again h = elim (Bool-cases (nat_beq len 0)) [
        | inl stop ↦
            let q : ◌≡◌ {A = List Text × ℕ} (before, pos + 1) (found, end) =
              eq_of_some (rw stop at h) in
            let is_zero : len ≡ 0 = ground arith in
            (
              [],
              sym (ap (λ r. r.0) q) ∙ sym (append-nil before),
              subst (λ (e : ℕ). Encoded buf pos [] e) (ap (λ r. r.1) q)
                  (root rest (p ∙ ap (λ (n : ℕ). n ∷ rest) is_zero)),
            )
        | inr go ↦ elim (Bool-cases (is_pointer len)) [
          | inl pointer ↦ absurd (cc (rw (go, pointer) at h))
          | inr plain ↦ elim (Bool-cases (ltb (length buf) (pos + 1 + len))) [
            | inl cut ↦ absurd (cc (rw (go, plain, cut) at h))
            | inr fits ↦ elim (Bool-cases (is_utf8 (take len rest))) [
              | inr bad ↦ absurd (cc (rw (go, plain, fits, bad) at h))
              | inl good ↦
                  let (labels, q, e) =
                    again (pos + 1 + len) (before ++ take len rest ∷ [])
                      (rw (go, plain, fits, good) at h) in
                  (
                    take len rest ∷ labels,
                    q ∙ append_assoc before (take len rest ∷ []) labels,
                    label len rest p go plain fits good e,
                  )
            ]
          ]
        ]
      ]

  qname_loop_complete :
      (fuel : ℕ) (pos : ℕ) (before labels : List Text) (end : ℕ)
      → length buf < pos + fuel
      → Encoded buf pos labels end
      → qname_loop fuel buf pos before ≡ some (before ++ labels, end)
  unfolding qname_loop
  qname_loop_complete zero pos before labels end h (root rest p) =
      absurd (ground (arith, drop-length pos buf 0 rest p))
  qname_loop_complete zero pos before labels end h (label len rest p a b c d e) =
      absurd (ground (arith, drop-length pos buf len rest p))
  qname_loop_complete (suc fuel) pos before labels end h (root rest p) =
      rw (p, qname_loop) (rw (append-nil before) refl)
  qname_loop_complete (suc fuel) pos before labels end h (label len rest p a b c d e) =
      rw (p, qname_loop)
        (rw (a, b, c, d)
          (qname_loop_complete fuel (pos + 1 + len) (before ++ take len rest ∷ []) _ end
              (omega arith) e
            ∙ rw (append_assoc before (take len rest ∷ []) _) refl))

-- A name is read exactly if the buffer holds one that is encoded from the start position on: the name
-- is its labels with dots between them, and the position is the one behind it.
pub dns_parse_qname_iff :
    (buf : Text) (start : ℕ) (name : Text) (end : ℕ)
    → (dns_parse_qname buf start ≡ some (name, end))
      ↔ ((labels : List Text) × (name ≡ join_dots labels) × Encoded buf start labels end)
unfolding dns_parse_qname
dns_parse_qname_iff buf start name end = (sound, λ (labels, q, e). complete labels q e)
  where
    sound :
        dns_parse_qname buf start ≡ some (name, end)
        → (labels : List Text) × (name ≡ join_dots labels) × Encoded buf start labels end
    sound h = elim (Option-cases (qname_loop (suc (length buf)) buf start [])) [
      | inl p ↦ absurd (cc (rw (p, dns_parse_qname) at h))
      | inr ((found, at_end), p) ↦
          let (labels, q, e) = qname_loop_sound buf (suc (length buf)) start [] found at_end p in
          let r : ◌≡◌ {A = Text × ℕ} (join_dots found, at_end) (name, end) =
            eq_of_some (rw (p, dns_parse_qname) at h) in
          (
            labels,
            sym (ap (λ x. x.0) r) ∙ ap join_dots q,
            subst (λ (x : ℕ). Encoded buf start labels x) (ap (λ x. x.1) r) e,
          )
    ]

    complete :
        (labels : List Text)
        → name ≡ join_dots labels
        → Encoded buf start labels end
        → dns_parse_qname buf start ≡ some (name, end)
    complete labels q e =
        rw
          (
            qname_loop_complete buf (suc (length buf)) start [] labels end (omega arith) e,
            dns_parse_qname,
          )
          (rw q refl)
