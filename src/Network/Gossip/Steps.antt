-- ===== src/Network/Gossip/Steps.antt =====
-- The steps of a network in which one thing is on its way: each call finds no node, a node that has it,
-- or one that takes it.
use nakamato_blockchain.Base.{
  ℕ, zero, suc, ◌≡◌, refl, sym, ap, ◌∙◌, inl, inr, true, false, none, some, List, [], ◌∷◌, ◌++◌,
  map, arith, All, get_elem?, Bool-cases, Option-cases, subst, All-append,
}
use nakamato_blockchain.Base.Text.{Str}
use nakamato_blockchain.Crypto.{Primitives}
use nakamato_blockchain.Server.{BlockchainServer, Message, list_peer_clients}
use nakamato_blockchain.Network.{
  Network, set, receiver, receive, Picked, here, there, Step, delivered, unreachable,
}
use nakamato_blockchain.Network.Gossip.{Gossip, receive-absent}

pub All-get_elem? {ℓ κ} :
    {A : Type ℓ} (P : A → Type κ) (xs : List A) (i : ℕ) (x : A)
    → All P xs
    → get_elem? xs i ≡ some x
    → P x
All-get_elem? P [] i x h e = absurd (ground (arith, e))
All-get_elem? P (y ∷ xs) zero x h e = let same : y ≡ x = cc e in subst P same h.0
All-get_elem? P (y ∷ xs) (suc i) x h e = All-get_elem? P xs i x h.1 e

pub All-set {ℓ κ} :
    {A : Type ℓ} (P : A → Type κ) (xs : List A) (i : ℕ) (x : A)
    → All P xs
    → P x
    → All P (set i x xs)
unfolding set
All-set P [] i x h k = tt
All-set P (y ∷ xs) zero x h k = (k, h.1)
All-set P (y ∷ xs) (suc i) x h k = (h.0, All-set P xs i x h.1 k)

pub Picked-All {κ} :
    (P : Message → Type κ) (m : Message) (calls rest : List Message)
    → Picked m calls rest
    → All P calls
    → P m × All P rest
Picked-All P m _ _ (here ms) h = h
Picked-All P m _ _ (there n ms rest q) h =
    let (k, hs) = Picked-All P m ms rest q h.1 in (k, (h.0, hs))

module _ (p : Primitives) (g : Gossip p) where
  pub call-injective : (i j : ℕ) → g.call i ≡ g.call j → i ≡ j
  call-injective i j e = sym (g.call-receiver i) ∙ ap receiver e ∙ g.call-receiver j

  receive-nobody :
      (nodes : List BlockchainServer) (peer : Str) (i : ℕ)
      → get_elem? nodes i ≡ none
      → receive p nodes peer (g.call i) ≡ none
  receive-nobody nodes peer i e =
      receive-absent p nodes peer (g.call i)
        (subst (λ k. get_elem? nodes k ≡ none) (sym (g.call-receiver i)) e)

  -- What the call to node i has done.
  pub data Received (nodes : List BlockchainServer) (i : ℕ)
      : List BlockchainServer → List Message → Type 0 where
    known :
        (s : BlockchainServer)
        → get_elem? nodes i ≡ some s
        → g.knows s ≡ true
        → Received nodes i (set i s nodes) []
    taken :
        (s : BlockchainServer)
        → get_elem? nodes i ≡ some s
        → g.IsReady s
        → g.knows s ≡ false
        → Received nodes i
            (set i (g.taking s) nodes)
            (map g.call (list_peer_clients s.peer_manager))

  receive-Received :
      (nodes after : List BlockchainServer) (peer : Str) (i : ℕ) (sent : List Message)
      → All g.IsReady nodes
      → receive p nodes peer (g.call i) ≡ some (after, sent)
      → Received nodes i after sent
  receive-Received nodes after peer i sent ready h = elim (Option-cases (get_elem? nodes i)) [
    | inl e ↦ absurd (let lost = receive-nobody nodes peer i e in ground (arith, h, lost))
    | inr (s, e) ↦
        let this = All-get_elem? g.IsReady nodes i s ready e in
        elim (Bool-cases (g.knows s)) [
          | inl k ↦
              let back = g.receive-known nodes peer i s e this k in
              let nodes_same : set i s nodes ≡ after = ground (arith, h, back) in
              let sent_same : [] ≡ sent = ground (arith, h, back) in
              subst (Received nodes i after) sent_same
                (subst (λ a. Received nodes i a []) nodes_same (known s e k))
          | inr k ↦
              let back = g.receive-taken nodes peer i s e this k in
              let passed = map g.call (list_peer_clients s.peer_manager) in
              let nodes_same : set i (g.taking s) nodes ≡ after = ground (arith, h, back) in
              let sent_same : passed ≡ sent = ground (arith, h, back) in
              subst (Received nodes i after) sent_same
                (subst (λ a. Received nodes i a passed) nodes_same (taken s e this k))
        ]
  ]

  Received-IsReady :
      (nodes : List BlockchainServer) (i : ℕ) (after : List BlockchainServer) (sent : List Message)
      → All g.IsReady nodes
      → Received nodes i after sent
      → All g.IsReady after
  Received-IsReady nodes i _ _ ready (known s e k) =
      All-set g.IsReady nodes i s ready (All-get_elem? g.IsReady nodes i s ready e)
  Received-IsReady nodes i _ _ ready (taken s e this k) =
      All-set g.IsReady nodes i (g.taking s) ready (g.taking-IsReady s this k)

  -- A call that brings it.
  abbrev pub IsCall : Message → Type 0
  IsCall m = (i : ℕ) × (m ≡ g.call i)

  pub calls-IsCall : (cs : List ℕ) → All IsCall (map g.call cs)
  calls-IsCall [] = tt
  calls-IsCall (c ∷ cs) = ((c, refl), calls-IsCall cs)

  Received-IsCall :
      (nodes : List BlockchainServer) (i : ℕ) (after : List BlockchainServer) (sent : List Message)
      → Received nodes i after sent
      → All IsCall sent
  Received-IsCall nodes i _ _ (known s e k) = tt
  Received-IsCall nodes i _ _ (taken s e _ k) = calls-IsCall (list_peer_clients s.peer_manager)

  -- Every node is ready for it, and it is all that is called about.
  pub record IsOnly (net : Network) : Type 0 where
    pub ready : All g.IsReady net.nodes
    pub only : All IsCall net.calls

  -- A step between such networks.
  pub data Stepped : Network → Network → Type 0 where
    stepped :
        (nodes after : List BlockchainServer) (calls rest sent : List Message) (i : ℕ)
        → Picked (g.call i) calls rest
        → Received nodes i after sent
        → Stepped
            (record { nodes = nodes; calls = calls })
            (record { nodes = after; calls = rest ++ sent })
    lost :
        (nodes : List BlockchainServer) (calls rest : List Message) (i : ℕ)
        → Picked (g.call i) calls rest
        → get_elem? nodes i ≡ none
        → Stepped (record { nodes = nodes; calls = calls }) (record { nodes = nodes; calls = rest })

  receive-none :
      (nodes : List BlockchainServer) (peer : Str) (i : ℕ)
      → All g.IsReady nodes
      → receive p nodes peer (g.call i) ≡ none
      → get_elem? nodes i ≡ none
  receive-none nodes peer i ready h = elim (Option-cases (get_elem? nodes i)) [
    | inl e ↦ e
    | inr (s, e) ↦
        let this = All-get_elem? g.IsReady nodes i s ready e in
        elim (Bool-cases (g.knows s)) [
          | inl k ↦
              absurd (let back = g.receive-known nodes peer i s e this k in ground (arith, h, back))
          | inr k ↦
              absurd (let back = g.receive-taken nodes peer i s e this k in ground (arith, h, back))
        ]
  ]

  pub Step-Stepped :
      (net after : Network) → IsOnly net → Step p net after → Stepped net after × IsOnly after
  Step-Stepped _ _ only (delivered nodes after calls rest sent m peer picked h) =
      let ((i, same), others) = Picked-All IsCall m calls rest picked only.only in
      let received =
        receive-Received nodes after peer i sent only.ready
          (subst (λ x. receive p nodes peer x ≡ some (after, sent)) same h) in
      (
        stepped nodes after calls rest sent i (subst (λ x. Picked x calls rest) same picked)
            received,
        record {
          ready = Received-IsReady nodes i after sent only.ready received;
          only = All-append IsCall rest sent others (Received-IsCall nodes i after sent received);
        },
      )
  Step-Stepped _ _ only (unreachable nodes calls rest m peer picked h) =
      let ((i, same), others) = Picked-All IsCall m calls rest picked only.only in
      (
        lost nodes calls rest i (subst (λ x. Picked x calls rest) same picked) (
            receive-none nodes peer i only.ready
              (subst (λ x. receive p nodes peer x ≡ none) same h)),
        record { ready = only.ready; only = others },
      )
