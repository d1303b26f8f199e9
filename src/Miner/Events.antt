-- ===== src/Miner/Events.antt =====
-- The life of a miner: its start, and then calls of peers and clients, HTTP requests and turns of
-- mining, one after the other in any order. A panic ends the program; the node is then as the call
-- left it.
use nakamato_blockchain.Base.{ℕ, Option, none, some, List, [], ◌∷◌}
use nakamato_blockchain.Base.Text.{Str}
use nakamato_blockchain.Types.{Block}
use nakamato_blockchain.Crypto.{Primitives}
use nakamato_blockchain.Convert.{GrpcTransaction, GrpcBlock}
use nakamato_blockchain.Server.{BlockchainServer, Reply}
use nakamato_blockchain.Server.Incoming.{submit_transaction, submit_block}
use nakamato_blockchain.Server.Mining.{Turn}
use nakamato_blockchain.Server.Search.{View, Try}
use nakamato_blockchain.Server.Turns.{mine_turn}
use nakamato_blockchain.Miner.{HttpRequest, serve_http}

-- What happens to a node.
pub data Event : Type 0 where
  transaction_came : GrpcTransaction → Event
  block_came : (ℕ → Str → Option Block) → Option GrpcBlock → List Str → Str → Event
  request_came : HttpRequest → Event
  turn_ended : List View → List Try → Event

abbrev pub after_turn : BlockchainServer → Option (Reply Turn) → BlockchainServer
after_turn s none = s
after_turn s (some reply) = reply.server

module _ (p : Primitives) (split_host_port : Str → Option (Str × Str)) (dial : Str → Option ℕ) where
  unfoldable pub after_event : BlockchainServer → Event → BlockchainServer
  after_event s (transaction_came tx) = (submit_transaction p s tx).server
  after_event s (block_came answer b hashes peer) = (submit_block p answer s b hashes peer).server
  after_event s (request_came r) = (serve_http split_host_port dial s r).1
  after_event s (turn_ended views tries) = after_turn s (mine_turn p views tries s)

  unfoldable pub after_events : BlockchainServer → List Event → BlockchainServer
  after_events s [] = s
  after_events s (e ∷ es) = after_events (after_event s e) es
