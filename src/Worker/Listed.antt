-- ===== src/Worker/Listed.antt =====
-- What `Reconciler::reconcile` of crates/r4a-worker/src/lib.rs takes from the list of containers.
use rust4eska.Prelude.{
  ℕ, ◌≤◌, length, nat_beq, nat_beq_iff, ◌≡◌, ◌≢◌, ◌⊎◌, ◌++◌, text, refl, Each, insert, In-insert,
  Bool-cases, strip_prefix, ap, subst, sym, inl, inr, Text, text_eq, nat_eq, Option, none, some,
  List, [], ◌∷◌, arith, In, here, there,
}
use rust4eska.Store.Vault.{trim_start_matches, trim_from}
use rust4eska.Worker.{Container, Managed, add_names, add_container, managed_containers}

head_of : {x y : ℕ} {s t : Text} → ◌≡◌ {A = Text} (x ∷ s) (y ∷ t) → x ≡ y
head_of {x} e = ap (first x) e
  where
    first : ℕ → Text → ℕ
    first d [] = d
    first d (c ∷ s) = c

-- what `trim_start_matches("/")` leaves: no leading slash, and only slashes are cut
pub record Trimmed (listed name : Text) : Type 0 where
  pub slashes : Text
  pub all_slashes : Each (λ c. c ≡ b'/') slashes
  pub is_listed : listed ≡ slashes ++ name
  pub no_slash : (rest : Text) → name ≢ b'/' ∷ rest

trim_from-Trimmed :
    (fuel s : Text) → length s ≤ length fuel → Trimmed s (trim_from fuel s (text "/"))
trim_from-Trimmed [] [] h = record {
  slashes = [];
  all_slashes = tt;
  is_listed = refl;
  no_slash = λ rest e. cc e;
}
trim_from-Trimmed [] (x ∷ s) h = absurd (omega arith)
trim_from-Trimmed (c ∷ fuel) [] h = record {
  slashes = [];
  all_slashes = tt;
  is_listed = refl;
  no_slash = λ rest e. cc e;
}
trim_from-Trimmed (c ∷ fuel) (x ∷ s) h = elim (Bool-cases (nat_beq x b'/')) [
  | inl p ↦
      let more = trim_from-Trimmed fuel s (omega arith) in
      rw (p, trim_from, strip_prefix)
        (record {
          slashes = x ∷ more.slashes;
          all_slashes = ((nat_beq_iff x b'/').0 p, more.all_slashes);
          is_listed = ap (λ t. x ∷ t) more.is_listed;
          no_slash = more.no_slash;
        })
  | inr p ↦
      rw (p, trim_from, strip_prefix)
        (record {
          slashes = [];
          all_slashes = tt;
          is_listed = refl;
          no_slash = λ rest e. cc ((nat_beq_iff x b'/').1 (head_of e), p);
        })
]

trim_start_matches-Trimmed : (s : Text) → Trimmed s (trim_start_matches s (text "/"))
unfolding trim_start_matches
trim_start_matches-Trimmed s = trim_from-Trimmed s s (omega arith)

-- Docker listed a container with the id, and among its names one that is the given name behind
-- leading slashes
pub record Listed (containers : List Container) (id : Option Text) (name : Text) : Type 0 where
  pub container : Container
  pub is_in : In container containers
  pub has_id : container.id ≡ id
  pub names : List Text
  pub has_names : container.names ≡ some names
  pub listed : Text
  pub is_name : In listed names
  pub trimmed : Trimmed listed name

add_names-In :
    (id : Option Text) (names : List Text) (found : Managed) (e : Text × Option Text)
    → In e (add_names id names found)
    → ((listed : Text) × In listed names × (e.1 ≡ id) × Trimmed listed e.0) ⊎ In e found
add_names-In id [] found e i = inr i
add_names-In id (name ∷ names) found e i =
    let key = trim_start_matches name (text "/") in
    elim (add_names-In id names (insert key id found) e i) [
      | inl (listed, j, same, t) ↦ inl (listed, there j, same, t)
      | inr j ↦ elim (In-insert key id found e j) [
        | inr k ↦ inr k
        | inl q ↦ inl (
          name,
          here,
          ap (λ (x : Text × Option Text). x.1) q,
          subst (λ n. Trimmed name n) (ap (λ (x : Text × Option Text). x.0) (sym q))
              (trim_start_matches-Trimmed name),
        )
      ]
    ]

pub managed_containers-In :
    (cs : List Container) (found : Managed) (e : Text × Option Text)
    → In e (managed_containers cs found)
    → Listed cs e.1 e.0 ⊎ In e found
unfolding managed_containers
managed_containers-In [] found e i = inr i
managed_containers-In (c ∷ cs) found e i =
    elim (managed_containers-In cs (add_container c c.names found) e i) [
      | inl l ↦ inl (record {
        container = l.container;
        is_in = there l.is_in;
        has_id = l.has_id;
        names = l.names;
        has_names = l.has_names;
        listed = l.listed;
        is_name = l.is_name;
        trimmed = l.trimmed;
      })
      | inr j ↦ added c.names refl j
    ]
  where
    added :
        (names : Option (List Text))
        → c.names ≡ names
        → In e (add_container c names found)
        → Listed (c ∷ cs) e.1 e.0 ⊎ In e found
    added none h j = inr j
    added (some names) h j = elim (add_names-In c.id names found e j) [
      | inr k ↦ inr k
      | inl (listed, k, same, t) ↦ inl (record {
        container = c;
        is_in = here;
        has_id = sym same;
        names = names;
        has_names = h;
        listed = listed;
        is_name = k;
        trimmed = t;
      })
    ]
