-- ===== src/Server/Pool.antt =====
-- The pool of a node: what each of its operations leaves in it.
use nakamato_blockchain.Base.{
  ℕ, ◌≡◌, ◌⊎◌, refl, sym, ap, subst, ◌∙◌, true, Option, some, List, [], ◌∷◌, ◌&&◌, All, arith,
  Bool-cases, Option-cases, inl, inr, not,
}
use nakamato_blockchain.Base.Text.{Str, str_eq}
use nakamato_blockchain.Base.Dict.{Dict, insert}
use nakamato_blockchain.Types.{
  Transaction, Block, Error, add_block_failed, fork_failed, Result, ok, err, panic,
}
use nakamato_blockchain.Crypto.{Primitives}
use nakamato_blockchain.Transaction
use nakamato_blockchain.Blockchain
use nakamato_blockchain.Blockchain.{Blockchain, add_block, get_last_block, get_block_by_hash}
use nakamato_blockchain.Fork.{handle_fork}
use nakamato_blockchain.TransactionPool
use nakamato_blockchain.Convert.{GrpcTransaction, convert_grpc_to_transaction}
use nakamato_blockchain.Server.{
  BlockchainServer, Reply, forwarded, link_block, handle_transaction_submission,
  handle_block_submission, request_block_by_hash,
}
use nakamato_blockchain.Server.Incoming.{submit_transaction}
use nakamato_blockchain.Server.Mining.{
  Turn, stop_mining, falsified, announce, announced, found, mined_block,
}
use nakamato_blockchain.Server.Search.{View, Try}
use nakamato_blockchain.Server.Turns.{mine_turn, mine_turn_cases}

-- A verified transaction under its hash.
abbrev pub IsPooled : Primitives → Str × Transaction → Type 0
IsPooled p e = (e.1.hash ≡ e.0) × (Transaction.verify p e.1 ≡ true)

All-insert :
    (P : Str × Transaction → Type 0) (k : Str) (tx : Transaction) (d : Dict Transaction)
    → P (k, tx)
    → All P d
    → All P (insert k tx d)
unfolding insert
All-insert P k tx [] h hs = (h, tt)
All-insert P k tx ((j, w) ∷ d) h (g, hs) = elim (Bool-cases (str_eq k j)) [
  | inl e ↦ rw (insert, e) (h, hs)
  | inr e ↦ rw (insert, e) (g, All-insert P k tx d h hs)
]

-- The pool stays, or has the verified transaction put in.
handle_transaction_submission-tx_pool :
    (p : Primitives) (s : BlockchainServer) (tx : Transaction)
    → ((handle_transaction_submission p s tx).server.tx_pool ≡ s.tx_pool)
      ⊎ ((Transaction.verify p tx ≡ true)
          × ((handle_transaction_submission p s tx).server.tx_pool.transactions
              ≡ insert tx.hash tx s.tx_pool.transactions))
unfolding handle_transaction_submission TransactionPool.has_transaction
    TransactionPool.add_transaction
handle_transaction_submission-tx_pool p s tx = elim (Bool-cases (Transaction.verify p tx)) [
  | inr bad ↦ inl (ground (arith, bad))
  | inl good ↦
      elim (Bool-cases (
        not (TransactionPool.has_transaction s.tx_pool tx.hash)
        && not (Blockchain.has_transaction s.blockchain tx.hash))) [
          | inl fresh ↦ inr (good, ground (arith, good, fresh))
          | inr known ↦ inl (ground (arith, good, known))
        ]
]

pub submit_transaction-IsPooled :
    (p : Primitives) (s : BlockchainServer) (g : GrpcTransaction)
    → All (IsPooled p) s.tx_pool.transactions
    → All (IsPooled p) (submit_transaction p s g).server.tx_pool.transactions
unfolding submit_transaction
submit_transaction-IsPooled p s g hs =
    let tx = convert_grpc_to_transaction g in
    elim (handle_transaction_submission-tx_pool p s tx) [
      | inl e ↦
          subst (λ (t : TransactionPool.TransactionPool). All (IsPooled p) t.transactions) (sym e)
            hs
      | inr (good, e) ↦
          subst (All (IsPooled p)) (sym e)
            (All-insert (IsPooled p) tx.hash tx s.tx_pool.transactions (refl, good) hs)
    ]

forwarded-tx_pool :
    (e : Error) (s : BlockchainServer) (b : Block) (hashes : List Str)
    (r : Result (Unit {0}) × Blockchain)
    → (forwarded e s b hashes r).server.tx_pool ≡ s.tx_pool
forwarded-tx_pool e s b hashes (ok _, bc) = refl
forwarded-tx_pool e s b hashes (err _, bc) = refl
forwarded-tx_pool e s b hashes (panic, bc) = refl

pub handle_block_submission-tx_pool :
    (p : Primitives) (answer : ℕ → Str → Option Block) (s : BlockchainServer) (b : Block)
    (hashes : List Str) (peer : Str)
    → (handle_block_submission p answer s b hashes peer).server.tx_pool ≡ s.tx_pool
unfolding handle_block_submission link_block
handle_block_submission-tx_pool p answer s b hashes peer =
    elim (Option-cases (get_last_block s.blockchain)) [
      | inl e ↦ ground (arith, e)
      | inr (last, e) ↦
          let added = forwarded-tx_pool add_block_failed s b hashes (add_block p s.blockchain b) in
          let forked =
            forwarded-tx_pool fork_failed s b hashes
              (handle_fork p s.blockchain hashes (request_block_by_hash s.peer_manager answer)) in
          ground (arith, e, added, forked)
    ]

announce-tx_pool : (s : BlockchainServer) (b : Block) → (announce s b).server.tx_pool ≡ s.tx_pool
unfolding announce stop_mining
announce-tx_pool s b = ground arith

announced-tx_pool :
    (s : BlockchainServer) (b : Block) (r : Result (Unit {0}) × Blockchain)
    → (announced s b r).server.tx_pool ≡ s.tx_pool
announced-tx_pool s b (ok _, bc) = announce-tx_pool (record s { blockchain = bc }) b
announced-tx_pool s b (err _, bc) =
    let rest = announce-tx_pool (record s { blockchain = bc }) b in ground (arith, rest)
announced-tx_pool s b (panic, bc) = refl

mined_block-tx_pool :
    (p : Primitives) (s : BlockchainServer) (block : Block) (hash : Str)
    → (mined_block p s block hash).server.tx_pool ≡ s.tx_pool
unfolding mined_block
mined_block-tx_pool p s block hash =
    let lie = falsified s.mode (found block hash) in
    let rest = announced-tx_pool s lie (add_block p s.blockchain lie) in ground (arith, rest)

pub mine_turn-tx_pool :
    (p : Primitives) (views : List View) (tries : List Try) (s : BlockchainServer)
    (reply : Reply Turn)
    → mine_turn p views tries s ≡ some reply
    → reply.server.tx_pool ≡ s.tx_pool
mine_turn-tx_pool p views tries s reply h = elim (mine_turn_cases p views tries s reply h) [
  | inl same ↦ ap (λ (x : BlockchainServer). x.tx_pool) same
  | inr (b, c, hash, waited, searched, done) ↦
      ap (λ (x : Reply Turn). x.server.tx_pool) done ∙ mined_block-tx_pool p s c hash
]
