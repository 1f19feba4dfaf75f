-- ===== src/Server/Connections/Once.antt =====
-- The pool that joining agents and connecting clients share, binaries/r4a-server/src/main.rs.
use rust4eska.Prelude.{
  ℕ, ◌+◌, ◌≤◌, ◌≡◌, ◌≢◌, refl, ap, sym, ◌∙◌, inl, inr, Text, text_eq, nat_eq, none, lookup, arith,
  Bool, ◌⊎◌,
}
use rust4eska.Models.{JoinRequest}
use rust4eska.Backend.{Backend}
use rust4eska.Server.{AppState}
use rust4eska.Server.Auth.{Auth}
use rust4eska.Server.Join.{
  Reply, accepted, refused, JoinResponse, JoinTask, Refusal, join_handler, ip_of,
}
use rust4eska.Server.Join.Pool.{ip_of_injective, join_handler_refused, join_handler-address}
use rust4eska.Server.Connections.{ConnectRequest, ConnectResponse, connect_handler}
use rust4eska.Server.Connections.Labels.{connect_handler-Advances, connect_handler-fresh}
use rust4eska.Server.Reply.{done}

module _ (B : Backend) where
  -- what the master becomes by joins and connections, whatever their outcomes
  pub data Later (s : AppState B) : AppState B → Type 0 where
    at_once : Later s s
    joins :
        (t : AppState B)
        → Later s t
        → (allow : Bool) (now : ℕ) (fresh : Text) (req : JoinRequest)
        → Later s (join_handler B allow now fresh req t).1
    connects :
        (t : AppState B)
        → Later s t
        → (id : Text) (now : ℕ) (endpoint : Text) (auth : Auth) (req : ConnectRequest)
        → Later s (connect_handler B id now endpoint auth req t).1

  -- a step that gives out a new address: of a client without a label, or of an agent with a new key
  pub data Gives (s : AppState B) : Text → AppState B → Type 0 where
    client :
        (id : Text) (now : ℕ) (endpoint : Text) (auth : Auth) (req : ConnectRequest)
        (response : ConnectResponse)
        → req.label ≡ none
        → (connect_handler B id now endpoint auth req s).0 ≡ done response
        → Gives s response.vpn_ip (connect_handler B id now endpoint auth req s).1
    agent :
        (allow : Bool) (now : ℕ) (fresh : Text) (req : JoinRequest) (response : JoinResponse B)
        (task : JoinTask B)
        → lookup req.pub_key s.peers ≡ none
        → (join_handler B allow now fresh req s).0 ≡ accepted (response, task)
        → Gives s response.agent_vpn_ip (join_handler B allow now fresh req s).1

  Reply-cases :
      {A : Type 0} (r : Reply A)
      → ((a : A) × (r ≡ accepted a)) ⊎ ((why : Refusal) × (r ≡ refused why))
  Reply-cases (accepted a) = inl (a, refl)
  Reply-cases (refused why) = inr (why, refl)

  join-next_ip :
      (allow : Bool) (now : ℕ) (fresh : Text) (req : JoinRequest) (s : AppState B)
      → s.next_ip ≤ (join_handler B allow now fresh req s).1.next_ip
  join-next_ip allow now fresh req s = elim (Reply-cases (join_handler B allow now fresh req s).0) [
    | inl ((response, task), p) ↦
        elim (join_handler-address B allow now fresh req s response task p) [
          | inl (existing, known, given, kept) ↦ omega arith
          | inr (new, room, given, taken) ↦ omega arith
        ]
    | inr (why, p) ↦
        let same =
          ap (λ (x : AppState B). x.next_ip)
            (join_handler_refused B allow now fresh req s why p).0 in
        omega arith
  ]

  Later-next_ip : (s t : AppState B) → Later s t → s.next_ip ≤ t.next_ip
  Later-next_ip s t at_once = omega arith
  Later-next_ip s t (joins u later allow now fresh req) =
      let before = Later-next_ip s u later in
      let grows = join-next_ip allow now fresh req u in omega arith
  Later-next_ip s t (connects u later id now endpoint auth req) =
      let before = Later-next_ip s u later in
      elim (connect_handler-Advances B id now endpoint req auth u).next_ip [
        | inl same ↦ omega arith
        | inr (room, taken) ↦ omega arith
      ]

  -- the address given out is the next one, and is used up
  Gives-next_ip :
      (s after : AppState B) (ip : Text)
      → Gives s ip after
      → (ip ≡ ip_of s.next_ip) × (after.next_ip ≡ s.next_ip + 1)
  Gives-next_ip s after ip (client id now endpoint auth req response no_label runs) =
      let (given, room, taken) =
        connect_handler-fresh B id now endpoint req auth s response no_label runs in
      (given, taken)
  Gives-next_ip s after ip (agent allow now fresh req response task new runs) =
      elim (join_handler-address B allow now fresh req s response task runs) [
        | inl (existing, known, given, kept) ↦ absurd (cc (known, new))
        | inr (unknown, room, given, taken) ↦ (given, taken)
      ]

  -- No new address is given out twice, be it to a client that connects without a label or to an
  -- agent that joins with a new key: after the one, and any joins and connections behind it, another
  -- gets an address that differs.
  pub given_once :
      (s after t end : AppState B) (ip ip' : Text)
      → Gives s ip after
      → Later after t
      → Gives t ip' end
      → ip ≢ ip'
  given_once s after t end ip ip' first later second same =
      let (is_ip, taken) = Gives-next_ip s after ip first in
      let (is_ip', taken') = Gives-next_ip t end ip' second in
      let k = ip_of_injective s.next_ip t.next_ip (sym is_ip ∙ same ∙ is_ip') in
      let grows = Later-next_ip after t later in omega arith
