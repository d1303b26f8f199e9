-- ===== src/Network/Gossip/Passing.antt =====
-- What becomes of the calls and of the nodes that know when a call is received.
use nakamato_blockchain.Base.{
  ℕ, ◌≡◌, refl, ap, ◌⊎◌, inl, inr, some, List, [], ◌∷◌, ◌++◌, map, get_elem?, subst,
}
use nakamato_blockchain.Crypto.{Primitives}
use nakamato_blockchain.Server.{BlockchainServer, Message, list_peer_clients}
use nakamato_blockchain.Network.{Picked, here, there}
use nakamato_blockchain.Network.Gossip.{Gossip}
use nakamato_blockchain.Network.Gossip.Steps.{Received, known, taken}
use nakamato_blockchain.Network.Gossip.Ending.{set-same}
use nakamato_blockchain.Network.Gossip.Spread.{
  Among, managers, Link, Knows, InFlight, get_elem?-set, get_elem?-set_self, get_elem?-set_other,
  managers-set, managers-get_elem?,
}

pub InFlight-append_left :
    (call : ℕ → Message) (i : ℕ) (ms ns : List Message)
    → InFlight call i ms
    → InFlight call i (ms ++ ns)
InFlight-append_left call i [] ns h = absurd h
InFlight-append_left call i (m ∷ ms) ns (inl e) = inl e
InFlight-append_left call i (m ∷ ms) ns (inr h) = inr (InFlight-append_left call i ms ns h)

pub InFlight-append_right :
    (call : ℕ → Message) (i : ℕ) (ms ns : List Message)
    → InFlight call i ns
    → InFlight call i (ms ++ ns)
InFlight-append_right call i [] ns h = h
InFlight-append_right call i (m ∷ ms) ns h = inr (InFlight-append_right call i ms ns h)

pub Among-InFlight :
    (call : ℕ → Message) (i : ℕ) (cs : List ℕ) → Among i cs → InFlight call i (map call cs)
Among-InFlight call i [] h = absurd h
Among-InFlight call i (c ∷ cs) (inl e) = inl (ap call e)
Among-InFlight call i (c ∷ cs) (inr h) = inr (Among-InFlight call i cs h)

pub Picked-InFlight :
    (call : ℕ → Message)
    → ((i j : ℕ) → call i ≡ call j → i ≡ j)
    → (k i : ℕ) (calls rest : List Message) → Picked (call k) calls rest
    → InFlight call i calls
    → (k ≡ i) ⊎ InFlight call i rest
Picked-InFlight call same k i _ _ (here ms) (inl e) = inl (same k i e)
Picked-InFlight call same k i _ _ (here ms) (inr h) = inr h
Picked-InFlight call same k i _ _ (there n ms rest q) (inl e) = inr (inl e)
Picked-InFlight call same k i _ _ (there n ms rest q) (inr h) =
    elim (Picked-InFlight call same k i ms rest q h) [ inl e ↦ inl e | inr g ↦ inr (inr g) ]

module _ (p : Primitives) (g : Gossip p) where
  pub Received-managers :
      (nodes : List BlockchainServer) (i : ℕ) (after : List BlockchainServer) (sent : List Message)
      → Received p g nodes i after sent
      → managers after ≡ managers nodes
  Received-managers nodes i _ _ (known s e k) = managers-set nodes i s s e refl
  Received-managers nodes i _ _ (taken s e ready k) =
      managers-set nodes i s (g.taking s) e (g.taking-peers s)

  pub Received-self :
      (nodes : List BlockchainServer) (i : ℕ) (after : List BlockchainServer) (sent : List Message)
      → Received p g nodes i after sent
      → Knows g.knows after i
  Received-self nodes i _ _ (known s e k) = (s, get_elem?-set_self nodes i s s e, k)
  Received-self nodes i _ _ (taken s e ready k) =
      (g.taking s, get_elem?-set_self nodes i (g.taking s) s e, g.taking-knows s ready k)

  Received-kept :
      (nodes : List BlockchainServer) (i : ℕ) (after : List BlockchainServer) (sent : List Message)
      (j : ℕ) (t : BlockchainServer)
      → Received p g nodes i after sent
      → get_elem? nodes j ≡ some t
      → (i ≡ j) ⊎ (get_elem? after j ≡ some t)
  Received-kept nodes i _ _ j t (known s _ _) f = get_elem?-set_other nodes i j s t f
  Received-kept nodes i _ _ j t (taken s _ _ _) f = get_elem?-set_other nodes i j (g.taking s) t f

  pub Received-keeps :
      (nodes : List BlockchainServer) (i : ℕ) (after : List BlockchainServer) (sent : List Message)
      (j : ℕ)
      → Received p g nodes i after sent
      → Knows g.knows nodes j
      → Knows g.knows after j
  Received-keeps nodes i after sent j received (t, f, h) =
      elim (Received-kept nodes i after sent j t received f) [
        | inl e ↦ subst (Knows g.knows after) e (Received-self nodes i after sent received)
        | inr e ↦ (t, e, h)
      ]

  pub Received-passes :
      (nodes : List BlockchainServer) (i : ℕ) (after : List BlockchainServer) (sent : List Message)
      (j k : ℕ)
      → Received p g nodes i after sent
      → Knows g.knows after j
      → Link (managers nodes) j k
      → Knows g.knows nodes j ⊎ InFlight g.call k sent
  Received-passes nodes i _ _ j k (known s e n) (t, f, h) link =
      inl (t, subst (λ ns. get_elem? ns j ≡ some t) (set-same nodes i s e) f, h)
  Received-passes nodes i _ _ j k (taken s e ready n) (t, f, h) (pm, at_j, among, _, _) =
      elim (get_elem?-set nodes i j (g.taking s) t f) [
        | inl (same, _) ↦
            let at_i : get_elem? nodes j ≡ some s =
              subst (λ m. get_elem? nodes m ≡ some s) same e in
            let its : pm ≡ s.peer_manager = cc (at_j, managers-get_elem? nodes j s at_i) in
            inr (Among-InFlight g.call k _ (subst (λ m. Among k (list_peer_clients m)) its among))
        | inr old ↦ inl (t, old, h)
      ]
