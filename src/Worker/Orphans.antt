-- ===== src/Worker/Orphans.antt =====
-- Which containers `Reconciler::reconcile` of crates/r4a-worker/src/lib.rs removes as orphans.
use rust4eska.Prelude.{
  ◌≡◌, ◌≢◌, ◌⊎◌, ◌++◌, text, Each, Bool-cases, Option-cases, ap, subst, sym, ◌∙◌, inl, inr, Text,
  text_eq, nat_eq, Option, none, some, List, [], ◌∷◌, ok, eq_of_ok, not, arith, ◌==◌, In, here,
  there, In-cons, filter-In, remove, list_beq_iff,
}
use rust4eska.Models.{Manifest, ContainerConfig}
use rust4eska.Worker.Listed.{Listed, managed_containers-In}
use rust4eska.Worker.{
  Docker, Container, Plan, Managed, managed_containers, container_name, still_managed, ensure_all,
  orphan_ids, plan_for, reconcile,
}

-- the name that a node gives to the container of an app
abbrev pub NamedFor : Text → Text → Manifest → Text → Type 0
NamedFor node_name app m name =
    ((m.app.node_selector ≡ text "all") × (name ≡ text "r4a-" ++ (app ++ (text "-" ++ node_name))))
    ⊎ ((m.app.node_selector ≢ text "all") × (name ≡ text "r4a-" ++ app))

NamedFor-container_name :
    (node_name app : Text) (m : Manifest) (name : Text)
    → NamedFor node_name app m name
    → container_name node_name app m ≡ name
unfolding container_name
NamedFor-container_name node_name app m name (inl (h, e)) = rw (h, container_name) (sym e)
NamedFor-container_name node_name app m name (inr (n, e)) =
    elim (Bool-cases (m.app.node_selector == text "all")) [
      | inl p ↦ absurd (n ((list_beq_iff m.app.node_selector (text "all")).0 p))
      | inr p ↦ rw (p, container_name) (sym e)
    ]

module _ (docker : Docker) (fetch : Text → Text → Text → Option Text) (token node_name : Text) where
  -- the name is of no container that a manifest asks for
  abbrev Unasked : List (Text × Manifest) → Text → Type 0
  Unasked manifests name =
      (app : Text) (m : Manifest) (config : ContainerConfig)
      → In (app, m) manifests
      → m.container ≡ some config
      → container_name node_name app m ≢ name

  In-remove :
      (key : Text) (managed : Managed) (e : Text × Option Text)
      → In e (remove key managed)
      → In e managed × (key ≢ e.0)
  In-remove key managed e i =
      let (j, q) = filter-In (λ (x : Text × Option Text). not (x.0 == key)) managed e i in
      (j, λ same. absurd (ground (arith, q, list_beq_iff e.0 key, same)))

  In-still_managed :
      (app : Text) (m : Manifest) (o : Option ContainerConfig) (managed : Managed)
      (e : Text × Option Text)
      → In e (still_managed docker fetch token node_name app m o managed)
      → In e managed
        × ((config : ContainerConfig) → o ≡ some config → container_name node_name app m ≢ e.0)
  In-still_managed app m none managed e i = (i, λ config h. cc h)
  In-still_managed app m (some c) managed e i =
      let (j, q) = In-remove (container_name node_name app m) managed e i in (j, λ config h. q)

  -- what stays managed was managed, under a name that no manifest asks for
  ensure_all-left :
      (manifests : List (Text × Manifest)) (managed : Managed) (e : Text × Option Text)
      → In e (ensure_all docker fetch token node_name manifests managed).1
      → In e managed × Unasked manifests e.0
  unfolding ensure_all
  ensure_all-left [] managed e i = (i, λ app m config j. elim j [ ])
  ensure_all-left ((name, manifest) ∷ manifests) managed e i =
      let (j, rest) =
        ensure_all-left manifests
          (still_managed docker fetch token node_name name manifest manifest.container managed) e
          i in
      let (k, first) = In-still_managed name manifest manifest.container managed e j in
      (
        k,
        λ app m config l h. elim (In-cons l) [
          | inr l' ↦ rest app m config l' h
          | inl same ↦ λ q.
              first config (ap (λ (x : Text × Manifest). x.1.container) (sym same) ∙ h)
                (ap (λ (x : Text × Manifest). container_name node_name x.0 x.1) (sym same) ∙ q)
        ],
      )

  orphan_ids-In :
      (managed : Managed) (id : Text)
      → In id (orphan_ids docker fetch token node_name managed)
      → (name : Text) × In (name, some id) managed
  unfolding orphan_ids
  orphan_ids-In [] id i = elim i [ ]
  orphan_ids-In ((name, none) ∷ managed) id i =
      let (n, j) = orphan_ids-In managed id i in (n, there j)
  orphan_ids-In ((name, some x) ∷ managed) id i = elim (In-cons i) [
    | inl same ↦ (name, rw same here)
    | inr j ↦ let (n, k) = orphan_ids-In managed id j in (n, there k)
  ]

  all-Unasked :
      (name : Text) (manifests rest : List (Text × Manifest))
      → ((e : Text × Manifest) → In e rest → In e manifests)
      → Unasked manifests name
      → Each (λ e. (e.1.container ≡ none) ⊎ ¬ NamedFor node_name e.0 e.1 name) rest
  all-Unasked name manifests [] sub u = tt
  all-Unasked name manifests ((app, m) ∷ rest) sub u = (
    elim (Option-cases m.container) [
      | inl e ↦ inl e
      | inr (config, e) ↦ inr (λ n.
          u app m config (sub (app, m) here) e (NamedFor-container_name node_name app m name n))
    ],
    all-Unasked name manifests rest (λ e i. sub e (there i)) u,
  )

  -- A container that `reconcile` removes as an orphan is one that Docker listed, with a name from
  -- which the slashes in front are cut, and each manifest asks for no container, or gives its own
  -- another name: "r4a-", the app, "-" and the node if the app is for all nodes, else "r4a-" and the
  -- app.
  pub reconcile-orphans :
      (manifests : List (Text × Manifest)) (containers : List Container) (plan : Plan) (id : Text)
      → docker.list_containers ≡ ok containers
      → reconcile docker fetch token node_name manifests ≡ ok plan
      → In id plan.orphans
      → (name : Text) × Listed containers (some id) name
        × Each (λ e. (e.1.container ≡ none) ⊎ ¬ NamedFor node_name e.0 e.1 name) manifests
  unfolding reconcile
  reconcile-orphans manifests containers plan id listed h i =
      let is_plan : plan_for docker fetch token node_name manifests containers ≡ plan =
        eq_of_ok (rw listed at h) in
      let orphan : In id (plan_for docker fetch token node_name manifests containers).orphans =
        subst (λ (p : Plan). In id p.orphans) (sym is_plan) i in
      let (name, j) =
        orphan_ids-In
          (ensure_all docker fetch token node_name manifests (managed_containers containers [])).1
          id orphan in
      let (k, unasked) =
        ensure_all-left manifests (managed_containers containers []) (name, some id) j in
      elim (managed_containers-In containers [] (name, some id) k) [
        | inl listed_as ↦ (name, listed_as, all-Unasked name manifests manifests (λ e l. l) unasked)
        | inr l ↦ elim l [ ]
      ]
