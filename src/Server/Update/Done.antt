-- ===== src/Server/Update/Done.antt =====
-- When the pending flag is cleared, and what the status page shows.
use rust4eska.Prelude.{
  ◌≡◌, ◌≢◌, ◌⊎◌, ◌==◌, text, [], ◌∷◌, map, filter, values, In, In-cons, here, there, eq_of_some, ap,
  sym, ◌∙◌, lookup-insert, ◌↔◌, inl, inr, refl, Text, text_eq, nat_eq, Option, none, some, List,
  Each, all-Each, true, false, lookup, insert, arith, list_beq_iff, Bool-cases,
}
use rust4eska.Models.{PeerInfo, AgentUpdateStatus, AgentUpdateState}
use rust4eska.Backend.{Backend}
use rust4eska.Server.{AppState}
use rust4eska.Server.Update.{
  UpdateReport, update_report, all_updated, agent_ips, is_done, some_ip, status_of,
}

-- The state of an agent that has the master's binary.
abbrev pub done : Text → AgentUpdateState
done mc = record { status = AgentUpdateStatus.updated; checksum = some mc }

is_done-done :
    (mc : Text) (o : Option AgentUpdateState) → (is_done mc o ≡ true) ↔ (o ≡ some (done mc))
is_done-done mc none = ground arith
is_done-done mc (some s) = of_parts mc s.status s.checksum
  where
    of_parts :
        (mc : Text) (status : AgentUpdateStatus) (c : Option Text)
        → (is_done mc (some (record { status = status; checksum = c })) ≡ true) ↔ (
            ◌≡◌ {A = Option AgentUpdateState}
              (some (record { status = status; checksum = c }))
              (some (done mc)))
    of_parts mc AgentUpdateStatus.updated (some c) = ground (arith, list_beq_iff c mc)
    of_parts mc AgentUpdateStatus.updated none = ground arith
    of_parts mc AgentUpdateStatus.unknown c = ground arith
    of_parts mc AgentUpdateStatus.pending c = ground arith
    of_parts mc AgentUpdateStatus.updating c = ground arith
    of_parts mc (AgentUpdateStatus.failed why) c = ground arith

status_of-updated :
    (status : Text) → (status_of status ≡ AgentUpdateStatus.updated) ↔ (status ≡ text "updated")
unfolding status_of
status_of-updated status = elim (Bool-cases (status == text "updated")) [
  | inl p ↦ (λ _. (list_beq_iff status (text "updated")).0 p, λ _. rw (p, status_of) refl)
  | inr p ↦ elim (Bool-cases (status == text "updating")) [
    | inl q ↦ (
      λ h. absurd (cc (rw (p, q, status_of) at h)),
      λ e. absurd (cc ((list_beq_iff status (text "updated")).1 e, p)),
    )
    | inr q ↦ elim (Bool-cases (status == text "failed")) [
      | inl r ↦ (
        λ h. absurd (cc (rw (p, q, r, status_of) at h)),
        λ e. absurd (cc ((list_beq_iff status (text "updated")).1 e, p)),
      )
      | inr r ↦ (
        λ h. absurd (cc (rw (p, q, r, status_of) at h)),
        λ e. absurd (cc ((list_beq_iff status (text "updated")).1 e, p)),
      )
    ]
  ]
]

-- the latest report of an agent is that it is updated to the checksum: the report that comes in, if
-- it is its own, else the one that is recorded
abbrev pub IsUpdated : UpdateReport → List (Text × AgentUpdateState) → Text → Text → Type 0
IsUpdated report states mc ip =
    ((report.agent_vpn_ip ≡ ip) × (report.status ≡ text "updated") × (report.checksum ≡ mc))
    ⊎ ((report.agent_vpn_ip ≢ ip) × (lookup ip states ≡ some (done mc)))

abbrev state_of : UpdateReport → AgentUpdateState
state_of report = record { status = status_of report.status; checksum = some report.checksum }

state_of-done :
    (report : UpdateReport) (mc : Text)
    → (◌≡◌ {A = Option AgentUpdateState} (some (state_of report)) (some (done mc)))
      ↔ ((report.status ≡ text "updated") × (report.checksum ≡ mc))
state_of-done report mc = (
  λ e.
      let q = eq_of_some e in
      (
        (status_of-updated report.status).0 (ap (λ (x : AgentUpdateState). x.status) q),
        eq_of_some (ap (λ (x : AgentUpdateState). x.checksum) q),
      ),
  λ (p, q). rw ((status_of-updated report.status).1 p, q) refl,
)

lookup-IsUpdated :
    (report : UpdateReport) (states : List (Text × AgentUpdateState)) (mc ip : Text)
    → (lookup ip (insert report.agent_vpn_ip (state_of report) states) ≡ some (done mc))
      ↔ IsUpdated report states mc ip
lookup-IsUpdated report states mc ip =
    rw (lookup-insert report.agent_vpn_ip ip (state_of report) states)
      (elim (Bool-cases (report.agent_vpn_ip == ip)) [
        | inl p ↦
            let same = (list_beq_iff report.agent_vpn_ip ip).0 p in
            rw p (
              λ e. let (u, c) = (state_of-done report mc).0 e in inl (same, u, c),
              λ r. elim r [
                | inl (_, u, c) ↦ (state_of-done report mc).1 (u, c)
                | inr (n, _) ↦ absurd (n same)
              ],
            )
        | inr p ↦
            let other : report.agent_vpn_ip ≢ ip =
              λ e. cc ((list_beq_iff report.agent_vpn_ip ip).1 e, p) in
            rw p (
              λ e. inr (other, e),
              λ r. elim r [ inl (e, _, _) ↦ absurd (other e) | inr (_, e) ↦ e ],
            )
      ])

all_updated_iff :
    (report : UpdateReport) (states : List (Text × AgentUpdateState)) (mc : Text) (ips : List Text)
    → (all_updated mc ips (insert report.agent_vpn_ip (state_of report) states) ≡ true)
      ↔ ((some_ip ips ≡ true) × Each (λ ip. IsUpdated report states mc ip) ips)
unfolding all_updated
all_updated_iff report states mc ips =
    let after = insert report.agent_vpn_ip (state_of report) states in
    let each =
      all-Each {P = λ ip. IsUpdated report states mc ip} (λ ip. is_done mc (lookup ip after))
        (λ ip.
          let a = is_done-done mc (lookup ip after) in
          let b = lookup-IsUpdated report states mc ip in (λ h. b.0 (a.0 h), λ h. a.1 (b.1 h)))
        ips in
    (λ h. (ground arith, each.0 (ground arith)), λ (h, e). let a = each.1 e in ground arith)

module _ {F : Type 0} where
  abbrev ips_of : List (Text × PeerInfo F) → List Text
  ips_of peers = map (λ p. p.ip) (filter (λ p. p.role == text "agent") (values peers))

  abbrev pub IsAgent : Text × PeerInfo F → Type 0
  IsAgent e = e.1.role ≡ text "agent"

  Each-IsAgent :
      (P : Text → Type 0) (peers : List (Text × PeerInfo F))
      → Each P (ips_of peers) ↔ Each (λ e. ¬ IsAgent e ⊎ P e.1.ip) peers
  Each-IsAgent P [] = (λ u. u, λ u. u)
  Each-IsAgent P (e ∷ peers) =
      let rest = Each-IsAgent P peers in
      elim (Bool-cases (e.1.role == text "agent")) [
        | inl p ↦ rw p (
          λ (q, r). (inr q, rest.0 r),
          λ (q, r). (
            elim q [ inl n ↦ absurd (n ((list_beq_iff e.1.role (text "agent")).0 p)) | inr x ↦ x ],
            rest.1 r,
          ),
        )
        | inr p ↦ rw p (
          λ r. (inl (λ a. cc ((list_beq_iff e.1.role (text "agent")).1 a, p)), rest.0 r),
          λ (q, r). rest.1 r,
        )
      ]

  some-IsAgent :
      (peers : List (Text × PeerInfo F))
      → (some_ip (ips_of peers) ≡ true) ↔ ((e : Text × PeerInfo F) × In e peers × IsAgent e)
  some-IsAgent [] = (λ h. cc h, λ (e, i, a). elim i [ ])
  some-IsAgent (e ∷ peers) = elim (Bool-cases (e.1.role == text "agent")) [
    | inl p ↦ rw p (λ _. (e, here, (list_beq_iff e.1.role (text "agent")).0 p), λ _. refl)
    | inr p ↦
        let rest = some-IsAgent peers in
        rw p (
          λ h. let (d, i, a) = rest.0 h in (d, there i, a),
          λ (d, i, a). elim (In-cons i) [
            | inl q ↦ absurd (
                cc (
                  (list_beq_iff e.1.role (text "agent")).1
                      (ap (λ (x : Text × PeerInfo F). x.1.role) (sym q) ∙ a),
                  p,
                ))
            | inr j ↦ rest.1 (d, j, a)
          ],
        )
  ]

module _ (B : Backend) (report : UpdateReport) (state : AppState B) where
  -- While an update is pending, a report ends it exactly if the master's own checksum is known, there
  -- is a peer with the role "agent", and each peer with that role has as its latest report that it is
  -- updated to just that checksum: for the agent that reports, the status of this report is "updated"
  -- and its checksum is that one; for any other, the recorded state says so.
  pub update_report-pending :
      (checksum : Option Text)
      → state.update_pending ≡ true
      → ((update_report B checksum report state).update_pending ≡ false) ↔ (
          (mc : Text) × (checksum ≡ some mc)
          × ((e : Text × PeerInfo B.Float) × In e state.peers × IsAgent e)
          × Each
              (λ e. ¬ IsAgent e ⊎ IsUpdated report state.agent_update_states mc e.1.ip)
              state.peers)
  unfolding update_report
  update_report-pending none pending =
      (λ p. absurd (cc (p, pending)), λ (mc, e, a, r). absurd (cc e))
  update_report-pending (some mc) pending =
      let states = insert report.agent_vpn_ip (state_of report) state.agent_update_states in
      let decided = all_updated_iff report state.agent_update_states mc (agent_ips B state) in
      let agents = some-IsAgent state.peers in
      let each =
        Each-IsAgent (λ ip. IsUpdated report state.agent_update_states mc ip) state.peers in
      elim (Bool-cases (all_updated mc (agent_ips B state) states)) [
        | inl h ↦
            let (one, all) = decided.0 h in
            rw (h, update_report) (λ _. (mc, refl, agents.0 one, each.0 all), λ _. refl)
        | inr h ↦
            rw (h, update_report)
              (
                λ p. absurd (cc (p, pending)),
                λ (mc', e, one, all).
                    absurd (cc (decided.1 (agents.1 one, each.1 (rw (← eq_of_some e) at all)), h)),
              )
      ]
