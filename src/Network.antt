-- ===== src/Network.antt =====
-- Several nodes, and the calls on their way between them: `SubmitTransaction` and `SubmitBlock` of
-- internal/server/incomingtraffic.go on the one side, `BroadcastTransaction` and `BroadcastBlock` of
-- outgoingtraffic.go on the other. Connection i of a node leads to node i. The calls that are still to
-- be made can be made in any order, as the handlers of a server run side by side, and each shows the
-- node any address as its caller's; a call to no node is an error that the caller logs.
pub mod Gossip
pub mod Transactions
pub mod Blocks
pub mod Termination
pub mod Reach
pub mod Consensus
pub mod Payment
use nakamato_blockchain.Base.{
  ℕ, zero, suc, ◌≡◌, Bool, Option, none, some, List, [], ◌∷◌, ◌++◌, get_elem?,
}
use nakamato_blockchain.Crypto.{Primitives}
use nakamato_blockchain.Base.Text.{Str}
use nakamato_blockchain.Types.{Block, Result, ok, err, panic}
use nakamato_blockchain.Convert.{GrpcBlock, convert_grpc_to_block}
use nakamato_blockchain.Server.{BlockchainServer, Message, Reply, submit_transaction, submit_block}
use nakamato_blockchain.Server.Incoming
use nakamato_blockchain.Server.Incoming.{answer_block}

pub record Network : Type 0 where
  pub nodes : List BlockchainServer
  pub calls : List Message

-- The list with the element at i replaced.
unfoldable pub set {ℓ} : {A : Type ℓ} → ℕ → A → List A → List A
set i a [] = []
set zero a (x ∷ xs) = a ∷ xs
set (suc i) a (x ∷ xs) = x ∷ set i a xs

-- A block that cannot be converted is a panic of the node that asked. None that `ConvertBlockToGrpc`
-- makes is one.
abbrev answered : Result Block → Option Block
answered (ok b) = some b
answered (err _) = none
answered panic = none

abbrev converted : Result GrpcBlock → Option Block
converted (ok b) = answered (convert_grpc_to_block b)
converted (err _) = none
converted panic = none

-- What a node is answered that asks connection i for the block with a hash.
unfoldable pub answer_of : List BlockchainServer → ℕ → Str → Option Block
answer_of nodes i hash = elim (get_elem? nodes i) [
  | none ↦ none
  | some s ↦ converted (answer_block s hash)
]

-- The node's handler, by the call, and the connection that the call is made on.
unfoldable pub handle :
    Primitives → List BlockchainServer → BlockchainServer → Str → Message → Reply Bool
handle p nodes s peer (submit_transaction i tx) = Incoming.submit_transaction p s tx
handle p nodes s peer (submit_block i b hashes) =
    Incoming.submit_block p (answer_of nodes) s (some b) hashes peer

abbrev pub receiver : Message → ℕ
receiver (submit_transaction i _) = i
receiver (submit_block i _ _) = i

-- The nodes after a call from the address, and the calls that it leads to, if there is a node to
-- receive it.
unfoldable pub receive :
    Primitives
    → List BlockchainServer
    → Str
    → Message
    → Option (List BlockchainServer × List Message)
unfolding set handle
receive p nodes peer m = elim (get_elem? nodes (receiver m)) [
  | none ↦ none
  | some s ↦
      let reply = handle p nodes s peer m in some (set (receiver m) reply.server nodes, reply.sent)
]

-- One call taken out of those that are still to be made.
pub data Picked (m : Message) : List Message → List Message → Type 0 where
  here : (ms : List Message) → Picked m (m ∷ ms) ms
  there : (n : Message) (ms rest : List Message) → Picked m ms rest → Picked m (n ∷ ms) (n ∷ rest)

pub data Step (p : Primitives) : Network → Network → Type 0 where
  delivered :
      (nodes after : List BlockchainServer) (calls rest sent : List Message) (m : Message)
      (peer : Str)
      → Picked m calls rest
      → receive p nodes peer m ≡ some (after, sent)
      → Step p
          (record { nodes = nodes; calls = calls })
          (record { nodes = after; calls = rest ++ sent })
  unreachable :
      (nodes : List BlockchainServer) (calls rest : List Message) (m : Message) (peer : Str)
      → Picked m calls rest
      → receive p nodes peer m ≡ none
      → Step p (record { nodes = nodes; calls = calls }) (record { nodes = nodes; calls = rest })

-- A number of steps.
pub data Run (p : Primitives) : ℕ → Network → Network → Type 0 where
  done : (net : Network) → Run p 0 net net
  more : (n : ℕ) (net mid end : Network) → Step p net mid → Run p n mid end → Run p (suc n) net end
