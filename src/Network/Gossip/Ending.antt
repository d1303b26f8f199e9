-- ===== src/Network/Gossip/Ending.antt =====
-- What is on its way is passed on only so often.
use nakamato_blockchain.Base.{
  ℕ, zero, suc, ◌+◌, ◌≡◌, refl, sym, ap, ◌⊎◌, inl, inr, Bool, false, some, List, [], ◌∷◌, map,
  arith, length, get_elem?, if◌then◌else◌, length-append, Option-cases, subst,
}
use nakamato_blockchain.Crypto.{Primitives}
use nakamato_blockchain.Server.{BlockchainServer, Message, list_peer_clients}
use nakamato_blockchain.Network.{
  Network, set, receive, Picked, here, there, Step, delivered, unreachable, Run, done, more,
}
use nakamato_blockchain.Network.Gossip.{Gossip}
use nakamato_blockchain.Network.Gossip.Steps.{
  Received, known, taken, IsOnly, Stepped, stepped, lost, Step-Stepped,
}

length-map {ℓ κ} :
    {A : Type ℓ} {B : Type κ} (f : A → B) (xs : List A) → length (map f xs) ≡ length xs
length-map f [] = refl
length-map f (x ∷ xs) = ap suc (length-map f xs)

pub set-same {ℓ} :
    {A : Type ℓ} (xs : List A) (i : ℕ) (x : A) → get_elem? xs i ≡ some x → set i x xs ≡ xs
unfolding set
set-same [] i x e = refl
set-same (y ∷ xs) zero x e = let same : y ≡ x = cc e in ap (λ z. z ∷ xs) (sym same)
set-same (y ∷ xs) (suc i) x e = ap (λ zs. y ∷ zs) (set-same xs i x e)

-- The calls that the node can still make.
abbrev node_pending : (BlockchainServer → Bool) → BlockchainServer → ℕ
node_pending knows s = if knows s then 0 else length (list_peer_clients s.peer_manager)

unfoldable pub pending : (BlockchainServer → Bool) → List BlockchainServer → ℕ
pending knows [] = 0
pending knows (s ∷ ss) = node_pending knows s + pending knows ss

-- The calls that are to be made, and those that nodes that do not know can still make.
abbrev pub measure : (BlockchainServer → Bool) → Network → ℕ
measure knows net = length net.calls + pending knows net.nodes

module _ (p : Primitives) (g : Gossip p) where
  pending-taken :
      (nodes : List BlockchainServer) (i : ℕ) (s : BlockchainServer)
      → get_elem? nodes i ≡ some s
      → g.IsReady s
      → g.knows s ≡ false
      → pending g.knows (set i (g.taking s) nodes) + length (list_peer_clients s.peer_manager)
        ≡ pending g.knows nodes
  unfolding pending set
  pending-taken [] i s e ready k = absurd (ground (arith, e))
  pending-taken (t ∷ nodes) zero s e ready k =
      let same : t ≡ s = cc e in rw same (ground (arith, k, g.taking-knows s ready k))
  pending-taken (t ∷ nodes) (suc i) s e ready k = omega (arith, pending-taken nodes i s e ready k)

  Picked-length :
      (m : Message) (calls rest : List Message)
      → Picked m calls rest
      → length calls ≡ suc (length rest)
  Picked-length m _ _ (here ms) = refl
  Picked-length m _ _ (there n ms rest q) = ap suc (Picked-length m ms rest q)

  -- What a call that is received adds to the calls, the nodes can make no more.
  Received-pending :
      (nodes : List BlockchainServer) (i : ℕ) (after : List BlockchainServer) (sent : List Message)
      → Received p g nodes i after sent
      → length sent + pending g.knows after ≡ pending g.knows nodes
  Received-pending nodes i _ _ (known s e k) =
      omega (arith, ap (pending g.knows) (set-same nodes i s e))
  Received-pending nodes i _ _ (taken s e ready k) = omega (
    arith,
    pending-taken nodes i s e ready k,
    length-map (g.call) (list_peer_clients s.peer_manager),
  )

  Stepped-measure :
      (net after : Network)
      → Stepped p g net after
      → measure g.knows net ≡ suc (measure g.knows after)
  Stepped-measure _ _ (stepped nodes after calls rest sent i picked received) = omega (
    arith,
    Picked-length (g.call i) calls rest picked,
    Received-pending nodes i after sent received,
    length-append rest sent,
  )
  Stepped-measure _ _ (lost nodes calls rest i picked e) =
      omega (arith, Picked-length (g.call i) calls rest picked)

  pub Run-IsOnly :
      (n : ℕ) (net end : Network)
      → IsOnly p g net
      → Run p n net end
      → IsOnly p g end × (n + measure g.knows end ≡ measure g.knows net)
  Run-IsOnly _ net _ only (done _) = (only, omega arith)
  Run-IsOnly _ net end only (more n _ mid _ step run) =
      let (first, kept) = Step-Stepped p g net mid only step in
      let (last, e) = Run-IsOnly n mid end kept run in
      (last, omega (arith, e, Stepped-measure net mid first))

  next-Step :
      (nodes : List BlockchainServer) (m : Message) (calls : List Message)
      → (after : Network) × Step p (record { nodes = nodes; calls = m ∷ calls }) after
  next-Step nodes m calls = elim (Option-cases (receive p nodes [] m)) [
    | inl r ↦ (_, unreachable nodes (m ∷ calls) calls m [] (here calls) r)
    | inr ((after, sent), r) ↦ (_, delivered nodes after (m ∷ calls) calls sent m [] (here calls) r)
  ]

  -- Made no more, or one step on.
  abbrev pub CanEnd : Network → Type 0
  CanEnd net = (net.calls ≡ []) ⊎ ((after : Network) × Step p net after)

  pub ends_or_steps : (net : Network) → CanEnd net
  ends_or_steps net = go net.calls refl
    where
      go : (calls : List Message) → net.calls ≡ calls → CanEnd net
      go [] e = inl e
      go (m ∷ calls) e =
          let (after, step) = next-Step net.nodes m calls in
          inr (after, subst (λ c. Step p (record net { calls = c }) after) (sym e) step)

  -- From any such network some run leaves no call.
  pub settles :
      (m : ℕ) (net : Network)
      → IsOnly p g net
      → measure g.knows net ≡ m
      → (n : ℕ) × (end : Network) × Run p n net end × (end.calls ≡ [])
  settles zero net only e = elim (ends_or_steps net) [
    | inl quiet ↦ (0, net, done net, quiet)
    | inr (after, step) ↦
        let (first, _) = Step-Stepped p g net after only step in
        absurd (omega (arith, e, Stepped-measure net after first))
  ]
  settles (suc m) net only e = elim (ends_or_steps net) [
    | inl quiet ↦ (0, net, done net, quiet)
    | inr (after, step) ↦
        let (first, kept) = Step-Stepped p g net after only step in
        let (n, end, run, quiet) =
          settles m after kept (omega (arith, e, Stepped-measure net after first)) in
        (suc n, end, more n net after end step run, quiet)
  ]
