-- ===== src/Server/Submission.antt =====
-- What a node answers to a transaction, and to a peer that sends invalid blocks.
use nakamato_blockchain.Base.{
  ℕ, suc, ◌+◌, ◌≤◌, ◌≡◌, ◌≢◌, ◌↔◌, refl, sym, ap, true, false, Option, List, [], ◌∷◌, arith, length,
  All, leb, if◌then◌else◌, ◌∙◌, Bool-cases, inl, inr,
}
use nakamato_blockchain.Base.Int.{pos}
use nakamato_blockchain.Base.Text.{Str}
use nakamato_blockchain.Base.Dict.{lookup-insert}
use nakamato_blockchain.Types.{Transaction, Block, ok, err, duplicate_transaction, invalid_block}
use nakamato_blockchain.Crypto.{Primitives}
use nakamato_blockchain.Transaction
use nakamato_blockchain.Block
use nakamato_blockchain.Blockchain
use nakamato_blockchain.Blockchain.{Blockchain}
use nakamato_blockchain.TransactionPool
use nakamato_blockchain.PeerManager.{new_peer_manager, is_blacklisted, increment_invalid_count}
use nakamato_blockchain.PeerManager.Blacklist.{
  Counts, Counts-increment_self, Counts-new_peer_manager,
}
use nakamato_blockchain.Server.{
  BlockchainServer, handle_transaction_submission, handle_block_submission,
}

-- `HandleTransactionSubmission` returns true exactly when the transaction verifies and its hash is
-- neither in the pool nor in the chain.
pub handle_transaction_submission_accepts :
    (p : Primitives) (s : BlockchainServer) (tx : Transaction)
    → ((handle_transaction_submission p s tx).result ≡ ok true) ↔ (
        (Transaction.verify p tx ≡ true)
        × (TransactionPool.has_transaction s.tx_pool tx.hash ≡ false)
        × (Blockchain.has_transaction s.blockchain tx.hash ≡ false))
unfolding handle_transaction_submission
handle_transaction_submission_accepts p s tx = (λ h. ground arith, λ h. ground arith)

pooled :
    (tp : TransactionPool.TransactionPool) (tx : Transaction)
    → TransactionPool.has_transaction tp tx.hash ≡ false
    → TransactionPool.has_transaction (TransactionPool.add_transaction tp tx).1 tx.hash ≡ true
unfolding TransactionPool.has_transaction TransactionPool.add_transaction
pooled tp tx h = ground (arith, lookup-insert tx.hash tx.hash tx tp.transactions)

-- A transaction that `HandleTransactionSubmission` has taken is refused as a duplicate when it
-- comes again: nothing changes and nothing is sent.
pub handle_transaction_submission-twice :
    (p : Primitives) (s : BlockchainServer) (tx : Transaction)
    → (handle_transaction_submission p s tx).result ≡ ok true
    → handle_transaction_submission p (handle_transaction_submission p s tx).server tx ≡ record {
      result = err duplicate_transaction;
      server = (handle_transaction_submission p s tx).server;
      sent = [];
    }
handle_transaction_submission-twice p s tx h =
    let (verified, fresh, new) = (handle_transaction_submission_accepts p s tx).0 h in
    let found = pooled s.tx_pool tx fresh in
    unfold handle_transaction_submission in ground (arith, verified, fresh, new, found)

-- The node after blocks from one peer.
unfoldable pub after_blocks :
    Primitives → (ℕ → Str → Option Block) → BlockchainServer → Str → List Block → BlockchainServer
after_blocks p answer s peer [] = s
after_blocks p answer s peer (b ∷ bs) =
    after_blocks p answer (handle_block_submission p answer s b [] peer).server peer bs

abbrev pub IsInvalid : Primitives → Block → Type 0
IsInvalid p b = Block.verify p b ≡ false

-- The invalid blocks that count: none after the third.
abbrev next_count : ℕ → ℕ
next_count c = if leb 3 c then c else suc c

counted_block :
    (p : Primitives) (answer : ℕ → Str → Option Block) (s : BlockchainServer) (b : Block)
    (peer : Str)
    → s.mode ≢ pos 3
    → IsInvalid p b
    → is_blacklisted s.peer_manager peer ≡ false
    → handle_block_submission p answer s b [] peer ≡ record {
      result = err invalid_block;
      server = record s { peer_manager = increment_invalid_count s.peer_manager peer };
      sent = [];
    }
unfolding handle_block_submission
counted_block p answer s b peer normal invalid white = ground (arith, normal, invalid, white)

-- What an invalid block keeps, and the count that it leaves.
record Counted (s after : BlockchainServer) (peer : Str) (c : ℕ) : Type 0 where
  chain_kept : after.blockchain ≡ s.blockchain
  mode_kept : after.mode ≡ s.mode
  counts : Counts after.peer_manager peer c

count-invalid_block :
    (p : Primitives) (answer : ℕ → Str → Option Block) (s : BlockchainServer) (b : Block)
    (peer : Str) (c : ℕ)
    → s.mode ≢ pos 3
    → IsInvalid p b
    → c ≤ 3
    → Counts s.peer_manager peer c
    → Counted s (handle_block_submission p answer s b [] peer).server peer (next_count c)
count-invalid_block p answer s b peer c normal invalid few k = elim (Bool-cases (leb 3 c)) [
  | inl listed ↦
      let black = k.listed ∙ listed in
      unfold handle_block_submission in
      rw (black, listed) (record { chain_kept = refl; mode_kept = refl; counts = k })
  | inr fewer ↦
      let e = counted_block p answer s b peer normal invalid (k.listed ∙ fewer) in
      rw (e, fewer)
        (record {
          chain_kept = refl;
          mode_kept = refl;
          counts = Counts-increment_self s.peer_manager peer c k (ground arith);
        })
]

count-after_blocks :
    (p : Primitives) (answer : ℕ → Str → Option Block) (s : BlockchainServer) (peer : Str) (c : ℕ)
    (bs : List Block)
    → s.mode ≢ pos 3
    → All (IsInvalid p) bs
    → c ≤ 3
    → Counts s.peer_manager peer c
    → ((after_blocks p answer s peer bs).blockchain ≡ s.blockchain)
      × (is_blacklisted (after_blocks p answer s peer bs).peer_manager peer ≡ leb 3 (c + length bs))
unfolding after_blocks
count-after_blocks p answer s peer c [] normal invalid few k = (refl, k.listed ∙ ground arith)
count-after_blocks p answer s peer c (b ∷ bs) normal invalid few k =
    let step = count-invalid_block p answer s b peer c normal invalid.0 few k in
    let s' = (handle_block_submission p answer s b [] peer).server in
    let (chain, listed) =
      count-after_blocks p answer s' peer (next_count c) bs (λ e. normal (sym step.mode_kept ∙ e))
        invalid.1 (ground arith) step.counts in
    (chain ∙ step.chain_kept, listed ∙ ground arith)

-- Invalid blocks that a peer sends, with no hashes, to a node that is not in mode 3 and has
-- recorded nothing of its peers never change the blockchain, and the peer is blacklisted exactly
-- when there were three or more.
pub after_blocks-invalid :
    (p : Primitives) (answer : ℕ → Str → Option Block) (s : BlockchainServer) (peer : Str)
    (bs : List Block)
    → s.mode ≢ pos 3
    → s.peer_manager ≡ new_peer_manager
    → All (IsInvalid p) bs
    → ((after_blocks p answer s peer bs).blockchain ≡ s.blockchain)
      × (is_blacklisted (after_blocks p answer s peer bs).peer_manager peer ≡ leb 3 (length bs))
after_blocks-invalid p answer s peer bs normal new invalid =
    let start : Counts s.peer_manager peer 0 = rw new (Counts-new_peer_manager peer) in
    let (chain, listed) =
      count-after_blocks p answer s peer 0 bs normal invalid (omega arith) start in
    (chain, listed ∙ ap (leb 3) (omega arith))
