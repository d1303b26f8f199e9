-- ===== src/Network/Gossip.antt =====
-- What a transaction and a block on their way have in common: a node that does not have it takes it
-- and passes it on to all its connections, one that has it does nothing.
pub mod Steps
pub mod Ending
pub mod Spread
pub mod Passing
pub mod Arrival
use nakamato_blockchain.Base.{
  ℕ, ◌≡◌, Bool, true, false, none, some, List, [], ◌∷◌, map, arith, get_elem?,
}
use nakamato_blockchain.Base.Text.{Str}
use nakamato_blockchain.Crypto.{Primitives}
use nakamato_blockchain.Server.{BlockchainServer, Message, Reply, list_peer_clients}
use nakamato_blockchain.Network.{set, receiver, handle, receive}

-- What is received is what the handler leaves and sends.
pub receive-handle :
    (p : Primitives) (nodes : List BlockchainServer) (peer : Str) (m : Message)
    (s : BlockchainServer) (r : Reply Bool)
    → get_elem? nodes (receiver m) ≡ some s
    → handle p nodes s peer m ≡ r
    → receive p nodes peer m ≡ some (set (receiver m) r.server nodes, r.sent)
unfolding receive
receive-handle p nodes peer m s r at h = ground (arith, at, h)

pub receive-absent :
    (p : Primitives) (nodes : List BlockchainServer) (peer : Str) (m : Message)
    → get_elem? nodes (receiver m) ≡ none
    → receive p nodes peer m ≡ none
unfolding receive
receive-absent p nodes peer m e = ground (arith, e)

pub record Gossip (p : Primitives) : Type 1 where
  -- The call that brings it to a node.
  pub call : ℕ → Message
  pub knows : BlockchainServer → Bool
  -- The node once it has it.
  pub taking : BlockchainServer → BlockchainServer
  -- What each node keeps to.
  pub IsReady : BlockchainServer → Type 0
  pub taking-knows : (s : BlockchainServer) → IsReady s → knows s ≡ false → knows (taking s) ≡ true
  pub taking-IsReady : (s : BlockchainServer) → IsReady s → knows s ≡ false → IsReady (taking s)
  pub taking-peers : (s : BlockchainServer) → (taking s).peer_manager ≡ s.peer_manager
  pub call-receiver : (i : ℕ) → receiver (call i) ≡ i
  pub receive-known :
      (nodes : List BlockchainServer) (peer : Str) (i : ℕ) (s : BlockchainServer)
      → get_elem? nodes i ≡ some s
      → IsReady s
      → knows s ≡ true
      → receive p nodes peer (call i) ≡ some (set i s nodes, [])
  pub receive-taken :
      (nodes : List BlockchainServer) (peer : Str) (i : ℕ) (s : BlockchainServer)
      → get_elem? nodes i ≡ some s
      → IsReady s
      → knows s ≡ false
      → receive p nodes peer (call i)
        ≡ some (set i (taking s) nodes, map call (list_peer_clients s.peer_manager))
