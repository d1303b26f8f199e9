-- ===== src/Network/Gossip/Spread.antt =====
-- Who is connected to whom, who knows, and who is still to be called.
use nakamato_blockchain.Base.{
  ℕ, zero, suc, ◌≡◌, refl, sym, ap, ◌∙◌, ◌⊎◌, inl, inr, Bool, true, none, some, List, [], ◌∷◌, map,
  arith, get_elem?,
}
use nakamato_blockchain.PeerManager.{PeerManager}
use nakamato_blockchain.Server.{BlockchainServer, Message, list_peer_clients}
use nakamato_blockchain.Network.{set}

-- j is among the connections.
abbrev pub Among : ℕ → List ℕ → Type 0
Among j [] = ⊥
Among j (c ∷ cs) = (c ≡ j) ⊎ Among j cs

-- The peer managers of the nodes.
abbrev pub managers : List BlockchainServer → List PeerManager
managers nodes = map (λ s. s.peer_manager) nodes

-- Node i is connected to node j.
abbrev pub Link : List PeerManager → ℕ → ℕ → Type 0
Link pms i j =
    (pm : PeerManager) × (get_elem? pms i ≡ some pm)
    × Among j (list_peer_clients pm)
    × (other : PeerManager) × (get_elem? pms j ≡ some other)

-- Node j can be reached from node i.
pub data Reaches (pms : List PeerManager) (i : ℕ) : ℕ → Type 0 where
  start : Reaches pms i i
  onward : (j k : ℕ) → Reaches pms i j → Link pms j k → Reaches pms i k

-- Node i is there, and knows.
abbrev pub Knows : (BlockchainServer → Bool) → List BlockchainServer → ℕ → Type 0
Knows knows nodes i = (s : BlockchainServer) × (get_elem? nodes i ≡ some s) × (knows s ≡ true)

-- A call to node i is still to be made.
abbrev pub InFlight : (ℕ → Message) → ℕ → List Message → Type 0
InFlight call i [] = ⊥
InFlight call i (m ∷ ms) = (m ≡ call i) ⊎ InFlight call i ms

module _ {ℓ} {A : Type ℓ} where
  pub get_elem?-set :
      (xs : List A) (i j : ℕ) (x y : A)
      → get_elem? (set i x xs) j ≡ some y
      → ((i ≡ j) × (x ≡ y)) ⊎ (get_elem? xs j ≡ some y)
  unfolding set
  get_elem?-set [] i j x y h = inr h
  get_elem?-set (z ∷ xs) zero zero x y h = inl (refl, cc h)
  get_elem?-set (z ∷ xs) zero (suc j) x y h = inr h
  get_elem?-set (z ∷ xs) (suc i) zero x y h = inr h
  get_elem?-set (z ∷ xs) (suc i) (suc j) x y h = elim (get_elem?-set xs i j x y h) [
    | inl (e, f) ↦ inl (ap suc e, f)
    | inr e ↦ inr e
  ]

  pub get_elem?-set_self :
      (xs : List A) (i : ℕ) (x y : A) → get_elem? xs i ≡ some y → get_elem? (set i x xs) i ≡ some x
  unfolding set
  get_elem?-set_self [] i x y h = absurd (ground (arith, h))
  get_elem?-set_self (z ∷ xs) zero x y h = refl
  get_elem?-set_self (z ∷ xs) (suc i) x y h = get_elem?-set_self xs i x y h

  -- An element that is there is still there or was replaced.
  pub get_elem?-set_other :
      (xs : List A) (i j : ℕ) (x y : A)
      → get_elem? xs j ≡ some y
      → (i ≡ j) ⊎ (get_elem? (set i x xs) j ≡ some y)
  unfolding set
  get_elem?-set_other [] i j x y h = inr h
  get_elem?-set_other (z ∷ xs) zero zero x y h = inl refl
  get_elem?-set_other (z ∷ xs) zero (suc j) x y h = inr h
  get_elem?-set_other (z ∷ xs) (suc i) zero x y h = inr h
  get_elem?-set_other (z ∷ xs) (suc i) (suc j) x y h = elim (get_elem?-set_other xs i j x y h) [
    | inl e ↦ inl (ap suc e)
    | inr e ↦ inr e
  ]

pub managers-set :
    (nodes : List BlockchainServer) (i : ℕ) (s t : BlockchainServer)
    → get_elem? nodes i ≡ some s
    → t.peer_manager ≡ s.peer_manager
    → managers (set i t nodes) ≡ managers nodes
unfolding set
managers-set [] i s t e f = refl
managers-set (x ∷ nodes) zero s t e f =
    let same : x ≡ s = cc e in
    ap (λ pm. pm ∷ managers nodes) (f ∙ ap (λ y. y.peer_manager) (sym same))
managers-set (x ∷ nodes) (suc i) s t e f =
    ap (λ pms. x.peer_manager ∷ pms) (managers-set nodes i s t e f)

pub managers-get_elem? :
    (nodes : List BlockchainServer) (i : ℕ) (s : BlockchainServer)
    → get_elem? nodes i ≡ some s
    → get_elem? (managers nodes) i ≡ some s.peer_manager
managers-get_elem? [] i s e = absurd (ground (arith, e))
managers-get_elem? (x ∷ nodes) zero s e =
    let same : x ≡ s = cc e in ap (λ y. some y.peer_manager) same
managers-get_elem? (x ∷ nodes) (suc i) s e = managers-get_elem? nodes i s e

pub managers-none :
    (nodes : List BlockchainServer) (i : ℕ)
    → get_elem? nodes i ≡ none
    → get_elem? (managers nodes) i ≡ none
managers-none [] i e = refl
managers-none (x ∷ nodes) zero e = absurd (ground (arith, e))
managers-none (x ∷ nodes) (suc i) e = managers-none nodes i e
