-- ===== src/Lib.antt =====
-- A model of the Nakamato blockchain: the core of a small proof-of-work currency in Go, with miners
-- that exchange transactions and blocks over gRPC.
--
-- The parts, and the files of the repository that they model:
--   * Types, UtxoSet, Transaction, Block: the structs and the methods of utxo.go, transaction.go and
--     block.go in internal/blockchain. `UtxoSet.add_transaction` is `UTXOSet.AddTransaction`,
--     `Transaction.verify` is `Transaction.Verify`, and so on: the names are the source's.
--   * Blockchain, Difficulty, Fork: internal/blockchain/blockchain.go, the chain of one node, its
--     difficulty, and the switch to a fork.
--   * TransactionPool: internal/blockchain/transactionpool.go.
--   * Crypto: internal/crypto. SHA-256, JSON, base64, X.509 and ECDSA are the fields of the record
--     `Primitives`, which every definition that needs them takes. Encoding has hexadecimal text, big
--     integers and rationals, as the standard library has them and the code uses them.
--   * Convert, PeerManager, Server, Server/Incoming: internal/server, one node with its peers. A call
--     returns its result, the node after it and the requests that it sends. Server/Mining, Server/Search
--     and Server/Turns are `MineBlocks`: the end of a turn, the search for a nonce, and a whole turn.
--     `start_mining` and `stop_mining` are `MineBlocks` and `StopMining` with nothing in between;
--     Server/Tasks has their reads and writes, and those of the goroutines, as steps in any order.
--   * Network: several nodes, and the calls that bring a transaction or a block from one to the next,
--     as steps in any order. Network/Gossip is what both have in common, a record of laws that
--     Network/Transactions and Network/Blocks fill.
--   * Client, Client/Ui: cmd/client and cmd/clientui. Client/Start is the `main` of the one, Client/Ui/Menu
--     that of the other. Miner: cmd/miner, with its `main` and the routes of its HTTP server;
--     Miner/Events is what happens to a miner, one by one. Generator: the generators of keys and
--     of first UTXOs in config.
--   * Base: lists, integers, text and maps that the parts share. Examples: the data of the tests, and
--     one application of each result.
--
-- A transaction reaches a node by `submit_transaction`, waits in its pool, and is mined into a
-- block by `create_block_with_transactions` and `mined_block`. A block from a peer reaches it by
-- `submit_block`; `handle_block_submission` adds it to the chain by `Blockchain.add_block`, which
-- changes the UTXO set by `UtxoSet.add_block`, or tries to switch to the fork that it belongs to by
-- `handle_fork`, which asks the peers for the blocks it lacks.
--
-- State is passed explicitly. An operation that changes its receiver returns its result and the new
-- receiver, after an error too, so that what a failed call leaves behind can be stated. A result is
-- a value, an error or a panic. A Go int or int64 is an integer, and sums wrap as in 64 bits; an
-- int32 wraps in 32. A string is its bytes, a slice a list, a map an association list. Where Go
-- visits a map in any order and the result depends on it, the order is an argument; the peers of a
-- node stand in the order of its table. What is drawn at random, read from the clock, typed by a
-- user or decoded from a file is an argument, and so is a miner's answer.
--
-- Every loop recurses on a list, or on the number of its rounds in Generator; only the digits of a
-- number are taken off on fuel, the number itself, and each step makes it smaller. The search for a
-- nonce has one try for each number drawn, and returns none if these were not enough; one that
-- meets the difficulty is enough, with the node's chain below the block.
--
-- A context is a number: a node counts those that it has made and lists those that are cancelled.
-- Where HTTP requests or calls come one after the other, each is done before the next; a panic in
-- an HTTP handler ends its connection only, as net/http recovers it.
--
-- Not modelled: log output and what `PrintAllUTXOs` prints, the locks of the peer manager and of
-- the clients (each method, and each visit of the client's loop, is one step), the opening of files
-- and sockets, the flags of the generators, the writing of files in config, memory orders weaker
-- than one write after the other, and the generated code in proto/gen. A peer's answer is the block
-- after its conversion: an answer that cannot be converted, which is a panic, is modelled in
-- Convert only. Whether a miner has taken a client's message is an argument of the round. In
-- Network a call is received whole before the next, and a node that asks its peers for blocks meets
-- them as they are at that moment.
pub mod Base
pub mod Types
pub mod Encoding
pub mod Crypto
pub mod Transaction
pub mod UtxoSet
pub mod Block
pub mod Difficulty
pub mod Blockchain
pub mod Fork
pub mod TransactionPool
pub mod PeerManager
pub mod Convert
pub mod Server
pub mod Examples
pub mod Client
pub mod Miner
pub mod Generator
pub mod Network
