-- ===== src/Network/Reach.antt =====
-- Once no call is left, a transaction is in the pool of every node that can be reached.
use nakamato_blockchain.Base.{ℕ, ◌≡◌, refl, some, List, [], ◌∷◌, All, get_elem?}
use nakamato_blockchain.Types.{Transaction}
use nakamato_blockchain.Crypto.{Primitives}
use nakamato_blockchain.Server.{BlockchainServer}
use nakamato_blockchain.Network.{Network, Run}
use nakamato_blockchain.Network.Gossip.Spread.{managers, Reaches, Knows}
use nakamato_blockchain.Network.Gossip.Arrival.{Run-Spreads, Reaches-Knows, begin-Spreads}
use nakamato_blockchain.Network.Transactions.{
  call, knows, IsNew, IsUnknown, IsSound, transaction_gossip,
}

-- A transaction that verifies and whose indices fit the messages, sent to one node of a network in
-- which no pool and no chain has it, is in the pool of every node that can be reached over the
-- connections once no call is left to be made, in whatever order the calls were made.
pub Run-reaches :
    (p : Primitives) (tx : Transaction) (nodes : List BlockchainServer) (first : ℕ)
    (s : BlockchainServer) (n : ℕ) (end : Network) (j : ℕ)
    → IsSound p tx
    → All (IsNew tx) nodes
    → All (IsUnknown tx) nodes
    → get_elem? nodes first ≡ some s
    → Run p n (record { nodes = nodes; calls = call tx first ∷ [] }) end
    → end.calls ≡ []
    → Reaches (managers nodes) first j
    → Knows (knows tx) end.nodes j
Run-reaches p tx nodes first s n end j sound new unknown at_first run quiet reaches =
    let g = transaction_gossip p tx sound in
    Reaches-Knows p g first (managers nodes) end j
      (Run-Spreads p g n first (managers nodes) _ end
        (record { ready = new; only = ((first, refl), tt) }) run
        (begin-Spreads p g nodes first s unknown at_first))
      quiet reaches
