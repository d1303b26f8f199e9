-- ===== src/Server.antt =====
-- internal/server/blockchainserver.go and outgoingtraffic.go: one node. A call returns its result, the
-- node after it and the requests sent to peers. A peer's client is the number of its connection, what
-- it answers to `GetBlockByHash` is a parameter: none for an error, else the block after its
-- conversion. Go visits the clients in any order, here they stand in that of the peer table.
pub mod Submission
pub mod Chain
pub mod Mining
pub mod Search
pub mod Contexts
pub mod Turns
pub mod Submitted
pub mod Round
pub mod Growth
pub mod Amounts
pub mod Pool
pub mod Tasks
pub mod Control
pub mod Incoming
use nakamato_blockchain.Base.{
  ℕ, zero, suc, Bool, true, false, not, ◌&&◌, ◌||◌, Option, none, some, List, [], ◌∷◌, map, ◌==◌,
  if◌then◌else◌,
}
use nakamato_blockchain.Base.Int.{ℤ, pos, leb_ℤ, ltb_ℤ, eq_ℤ}
use nakamato_blockchain.Base.Text.{Str, codes, str_eq}
use nakamato_blockchain.Types.{
  Utxo, Transaction, BlockHeader, BlockContent, Block, Error, invalid_transaction,
  duplicate_transaction, peer_blacklisted, invalid_block, add_block_failed, block_exists,
  fork_failed, mining_in_progress, mining_not_active, Result, ok, err, panic, ◌>>=◌,
}
use nakamato_blockchain.Crypto.{Primitives}
use nakamato_blockchain.Transaction
use nakamato_blockchain.Block
use nakamato_blockchain.Blockchain
use nakamato_blockchain.Blockchain.{
  Blockchain, new_blockchain, get_last_block, get_block_by_hash, get_last_100_hashes, create_block,
}
use nakamato_blockchain.Fork.{handle_fork}
use nakamato_blockchain.TransactionPool
use nakamato_blockchain.TransactionPool.{
  TransactionPool, new_transaction_pool, get_up_to_n_transactions,
}
use nakamato_blockchain.PeerManager.{PeerManager, is_blacklisted, increment_invalid_count}
use nakamato_blockchain.Convert.{
  GrpcTransaction, GrpcBlock, convert_transaction_to_grpc, convert_block_to_grpc,
}

pub record BlockchainServer : Type 0 where
  pub blockchain : Blockchain
  pub tx_pool : TransactionPool
  pub mining : Bool
  -- The context that `cancelFunc` cancels; none is nil.
  pub cancel_func : Option ℕ
  -- How many contexts were made, which are known by their numbers, and which of them are cancelled.
  pub contexts : ℕ
  pub cancelled : List ℕ
  pub peer_manager : PeerManager
  pub mode : ℤ

-- A request to a peer.
pub data Message : Type 0 where
  submit_transaction : ℕ → GrpcTransaction → Message
  submit_block : ℕ → GrpcBlock → List Str → Message

pub record Reply {ℓ} (A : Type ℓ) : Type ℓ where
  pub result : Result A
  pub server : BlockchainServer
  pub sent : List Message

abbrev client_of : Str × ℕ → ℕ
client_of e = e.1

unfoldable pub list_peer_clients : PeerManager → List ℕ
list_peer_clients pm = map client_of pm.peer_clients

unfoldable pub broadcast_transaction : PeerManager → Transaction → List Message
broadcast_transaction pm tx =
    map (λ client. submit_transaction client (convert_transaction_to_grpc tx))
      (list_peer_clients pm)

unfoldable pub broadcast_block : PeerManager → Block → List Str → List Message
broadcast_block pm b hashes =
    map (λ client. submit_block client (convert_block_to_grpc b) hashes) (list_peer_clients pm)

-- The first block that a client answers.
unfoldable pub first_answer : (ℕ → Str → Option Block) → Str → List ℕ → Option Block
first_answer answer hash [] = none
first_answer answer hash (client ∷ clients) = elim (answer client hash) [
  | none ↦ first_answer answer hash clients
  | some b ↦ some b
]

unfoldable pub request_block_by_hash : PeerManager → (ℕ → Str → Option Block) → Str → Option Block
unfolding first_answer list_peer_clients
request_block_by_hash pm answer hash = first_answer answer hash (list_peer_clients pm)

unfoldable pub new_blockchain_server :
    Primitives → ℤ → PeerManager → List Utxo → ℤ → Result BlockchainServer
new_blockchain_server p now peer_manager initial_utxos mode =
    new_blockchain p now initial_utxos >>= λ blockchain. ok (record {
      blockchain = blockchain;
      tx_pool = new_transaction_pool;
      mining = false;
      cancel_func = none;
      contexts = 0;
      cancelled = [];
      peer_manager = peer_manager;
      mode = mode;
    })

-- A false result always comes with an error: the error stands for both.
unfoldable pub handle_transaction_submission :
    Primitives → BlockchainServer → Transaction → Reply Bool
handle_transaction_submission p s tx =
    if not (Transaction.verify p tx)
    then record { result = err invalid_transaction; server = s; sent = [] }
    else if not (TransactionPool.has_transaction s.tx_pool tx.hash)
        && not (Blockchain.has_transaction s.blockchain tx.hash)
    then record {
      result = ok true;
      server = record s { tx_pool = (TransactionPool.add_transaction s.tx_pool tx).1 };
      sent = broadcast_transaction s.peer_manager tx;
    }
    else record { result = err duplicate_transaction; server = s; sent = [] }

-- What follows `AddBlock` and `HandleFork`: on success the block is broadcast.
abbrev pub forwarded :
    Error → BlockchainServer → Block → List Str → Result (Unit {0}) × Blockchain → Reply Bool
forwarded e s b hashes (ok _, bc) = record {
  result = ok true;
  server = record s { blockchain = bc };
  sent = broadcast_block s.peer_manager b hashes;
}
forwarded e s b hashes (err _, bc) = record {
  result = err e;
  server = record s { blockchain = bc };
  sent = [];
}
forwarded e s b hashes (panic, bc) = record {
  result = panic;
  server = record s { blockchain = bc };
  sent = [];
}

-- `HandleBlockSubmission` on a block that verifies, from the last block on. There is none on an empty
-- chain: its hash cannot be read.
unfoldable pub link_block :
    Primitives
    → (ℕ → Str → Option Block)
    → BlockchainServer
    → Block
    → List Str
    → Option Block
    → Reply Bool
link_block p answer s b hashes none = record { result = panic; server = s; sent = [] }
link_block p answer s b hashes (some last) =
    let known = get_block_by_hash s.blockchain b.hash in
    let forked = handle_fork p s.blockchain hashes (request_block_by_hash s.peer_manager answer) in
    if str_eq b.header.previous_hash last.hash
    then forwarded add_block_failed s b hashes (Blockchain.add_block p s.blockchain b)
    else elim known [
      | some _ ↦ record { result = err block_exists; server = s; sent = [] }
      | none ↦ forwarded fork_failed s b hashes forked
    ]

unfoldable pub handle_block_submission :
    Primitives → (ℕ → Str → Option Block) → BlockchainServer → Block → List Str → Str → Reply Bool
handle_block_submission p answer s b hashes peer_addr =
    if is_blacklisted s.peer_manager peer_addr
    then record { result = err peer_blacklisted; server = s; sent = [] }
    else if eq_ℤ s.mode (pos 3) && leb_ℤ (pos 1) b.header.height && ltb_ℤ b.header.height (pos 5)
    then record { result = ok true; server = s; sent = [] }
    else if not (Block.verify p b)
    then record {
      result = err invalid_block;
      server = record s { peer_manager = increment_invalid_count s.peer_manager peer_addr };
      sent = [];
    }
    else link_block p answer s b hashes (get_last_block s.blockchain)
