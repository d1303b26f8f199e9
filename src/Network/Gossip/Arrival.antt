-- ===== src/Network/Gossip/Arrival.antt =====
-- Once no call is left, every node that can be reached knows.
use nakamato_blockchain.Base.{
  ℕ, ◌≡◌, refl, sym, ◌∙◌, ◌⊎◌, inl, inr, true, false, none, some, List, [], ◌∷◌, ◌++◌, map, arith,
  All, get_elem?, subst,
}
use nakamato_blockchain.Crypto.{Primitives}
use nakamato_blockchain.PeerManager.{PeerManager}
use nakamato_blockchain.Server.{BlockchainServer, list_peer_clients}
use nakamato_blockchain.Network.{Network, set, here, Run, done, more}
use nakamato_blockchain.Network.Gossip.{Gossip}
use nakamato_blockchain.Network.Gossip.Steps.{
  All-get_elem?, All-set, call-injective, calls-IsCall, taken, IsOnly, Stepped, stepped, lost,
  Step-Stepped,
}
use nakamato_blockchain.Network.Gossip.Ending.{Run-IsOnly}
use nakamato_blockchain.Network.Gossip.Spread.{
  managers, Link, Reaches, start, onward, Knows, InFlight, managers-get_elem?, managers-none,
}
use nakamato_blockchain.Network.Gossip.Passing.{
  InFlight-append_left, InFlight-append_right, Picked-InFlight, Received-managers, Received-self,
  Received-keeps, Received-passes,
}

module _ (p : Primitives) (g : Gossip p) where
  -- Where it is, and where it is still to go.
  pub record Spreads (first : ℕ) (pms : List PeerManager) (net : Network) : Type 0 where
    pub same : managers net.nodes ≡ pms
    pub present : (pm : PeerManager) × (get_elem? pms first ≡ some pm)
    pub begun : Knows g.knows net.nodes first ⊎ InFlight g.call first net.calls
    pub passed :
        (j k : ℕ)
        → Knows g.knows net.nodes j
        → Link pms j k
        → Knows g.knows net.nodes k ⊎ InFlight g.call k net.calls

  Stepped-Spreads :
      (first : ℕ) (pms : List PeerManager) (net after : Network)
      → Stepped p g net after
      → Spreads first pms net
      → Spreads first pms after
  Stepped-Spreads first pms _ _ (stepped nodes after calls rest sent i picked received) spreads =
      record {
        same = Received-managers p g nodes i after sent received ∙ spreads.same;
        present = spreads.present;
        begun = still first spreads.begun;
        passed = λ j k knew link.
            elim (Received-passes p g nodes i after sent j k received knew
              (subst (λ m. Link m j k) (sym spreads.same) link)) [
                | inl old ↦ still k (spreads.passed j k old link)
                | inr flying ↦ inr (InFlight-append_right g.call k rest sent flying)
              ];
      }
    where
      still :
          (j : ℕ)
          → Knows g.knows nodes j ⊎ InFlight g.call j calls
          → Knows g.knows after j ⊎ InFlight g.call j (rest ++ sent)
      still j (inl knew) = inl (Received-keeps p g nodes i after sent j received knew)
      still j (inr flying) =
          elim (Picked-InFlight g.call (call-injective p g) i j calls rest picked flying) [
            | inl e ↦
                inl (subst (Knows g.knows after) e (Received-self p g nodes i after sent received))
            | inr h ↦ inr (InFlight-append_left g.call j rest sent h)
          ]
  Stepped-Spreads first pms _ _ (lost nodes calls rest i picked absent) spreads = record {
    same = spreads.same;
    present = spreads.present;
    begun = still first spreads.present spreads.begun;
    passed = λ j k knew link.
        let (_, _, _, other, at_k) = link in still k (other, at_k) (spreads.passed j k knew link);
  }
    where
      still :
          (j : ℕ)
          → (pm : PeerManager) × (get_elem? pms j ≡ some pm)
          → Knows g.knows nodes j ⊎ InFlight g.call j calls
          → Knows g.knows nodes j ⊎ InFlight g.call j rest
      still j present (inl knew) = inl knew
      still j (pm, at_j) (inr flying) =
          elim (Picked-InFlight g.call (call-injective p g) i j calls rest picked flying) [
            | inl e ↦
                let gone : get_elem? pms j ≡ none =
                  subst (λ m. get_elem? m j ≡ none) spreads.same
                    (managers-none nodes j (subst (λ m. get_elem? nodes m ≡ none) e absent)) in
                absurd (ground (arith, gone, at_j))
            | inr h ↦ inr h
          ]

  pub Run-Spreads :
      (n first : ℕ) (pms : List PeerManager) (net end : Network)
      → IsOnly p g net
      → Run p n net end
      → Spreads first pms net
      → Spreads first pms end
  Run-Spreads _ first pms _ _ only (done _) spreads = spreads
  Run-Spreads _ first pms net end only (more n _ mid _ step run) spreads =
      let (one, kept) = Step-Stepped p g net mid only step in
      Run-Spreads n first pms mid end kept run (Stepped-Spreads first pms net mid one spreads)

  pub Reaches-Knows :
      (first : ℕ) (pms : List PeerManager) (net : Network) (j : ℕ)
      → Spreads first pms net
      → net.calls ≡ []
      → Reaches pms first j
      → Knows g.knows net.nodes j
  Reaches-Knows first pms net _ spreads quiet start = landed first spreads.begun
    where
      landed :
          (j : ℕ)
          → Knows g.knows net.nodes j ⊎ InFlight g.call j net.calls
          → Knows g.knows net.nodes j
      landed j (inl knew) = knew
      landed j (inr flying) = absurd (subst (InFlight g.call j) quiet flying)
  Reaches-Knows first pms net _ spreads quiet (onward j k reaches link) =
      landed (spreads.passed j k (Reaches-Knows first pms net j spreads quiet reaches) link)
    where
      landed : Knows g.knows net.nodes k ⊎ InFlight g.call k net.calls → Knows g.knows net.nodes k
      landed (inl knew) = knew
      landed (inr flying) = absurd (subst (InFlight g.call k) quiet flying)

  -- The node does not know.
  abbrev pub IsUnknown : BlockchainServer → Type 0
  IsUnknown s = g.knows s ≡ false

  pub begin-Spreads :
      (nodes : List BlockchainServer) (first : ℕ) (s : BlockchainServer)
      → All IsUnknown nodes
      → get_elem? nodes first ≡ some s
      → Spreads first (managers nodes) (record { nodes = nodes; calls = g.call first ∷ [] })
  begin-Spreads nodes first s unknown at_first = record {
    same = refl;
    present = (s.peer_manager, managers-get_elem? nodes first s at_first);
    begun = inr (inl refl);
    passed = λ j k knew link.
        let (t, f, h) = knew in
        let not_yet = All-get_elem? IsUnknown nodes j t unknown f in
        absurd (ground (arith, not_yet, h));
  }

  module _ (nodes : List BlockchainServer) (first : ℕ) (s : BlockchainServer)
      (ready : All g.IsReady nodes) (unknown : All IsUnknown nodes)
      (at_first : get_elem? nodes first ≡ some s) where
    -- The network in which the one node knows, and has still to call all its connections.
    abbrev pub told : Network
    told = record {
      nodes = set first (g.taking s) nodes;
      calls = map g.call (list_peer_clients s.peer_manager);
    }

    told-Stepped : Stepped p g (record { nodes = nodes; calls = g.call first ∷ [] }) told
    told-Stepped = stepped nodes _ (g.call first ∷ []) [] _ first (here []) (
        taken s at_first (All-get_elem? g.IsReady nodes first s ready at_first)
          (All-get_elem? IsUnknown nodes first s unknown at_first))

    pub told-Spreads : Spreads first (managers nodes) told
    told-Spreads =
        Stepped-Spreads first (managers nodes) _ told told-Stepped
          (begin-Spreads nodes first s unknown at_first)

    pub told-IsOnly : IsOnly p g told
    told-IsOnly = record {
      ready = All-set g.IsReady nodes first (g.taking s) ready (
          g.taking-IsReady s (All-get_elem? g.IsReady nodes first s ready at_first)
            (All-get_elem? IsUnknown nodes first s unknown at_first));
      only = calls-IsCall p g (list_peer_clients s.peer_manager);
    }

    -- Every node that can be reached from it is there, knows and is ready.
    pub told-reaches :
        (n : ℕ) (end : Network) (j : ℕ)
        → Run p n told end
        → end.calls ≡ []
        → Reaches (managers nodes) first j
        → (t : BlockchainServer) × (get_elem? end.nodes j ≡ some t)
          × (g.knows t ≡ true)
          × g.IsReady t
    told-reaches n end j run quiet reaches =
        let (t, at_j, knows) =
          Reaches-Knows first (managers nodes) end j
            (Run-Spreads n first (managers nodes) told end told-IsOnly run told-Spreads) quiet
            reaches in
        let (kept, _) = Run-IsOnly p g n told end told-IsOnly run in
        (t, at_j, knows, All-get_elem? g.IsReady end.nodes j t kept.ready at_j)
