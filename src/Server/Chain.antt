-- ===== src/Server/Chain.antt =====
-- What a block from a peer can do to the chain and to the UTXO set of a node.
use nakamato_blockchain.Base.{
  ℕ, ◌≤◌, ◌≡◌, ◌⊎◌, refl, sym, ap, subst, true, none, some, Option, List, [], arith, All, ◌&&◌,
  Bool-cases, Option-cases, inl, inr,
}
use nakamato_blockchain.Base.Int.{pos, eq_ℤ, leb_ℤ, ltb_ℤ}
use nakamato_blockchain.Base.Text.{Str, str_eq}
use nakamato_blockchain.Types.{
  Block, Error, Result, returned, failed, panicked, outcome, ok, err, panic, add_block_failed,
  fork_failed,
}
use nakamato_blockchain.Crypto.{Primitives}
use nakamato_blockchain.Block
use nakamato_blockchain.UtxoSet.Supply.{supply}
use nakamato_blockchain.UtxoSet.Blocks.{HasInt64Outputs, add_block-supply}
use nakamato_blockchain.Blockchain.{Blockchain, add_block, get_last_block, get_block_by_hash}
use nakamato_blockchain.Blockchain.Growth.{add_block_ok, add_block_kept}
use nakamato_blockchain.Fork.{handle_fork}
use nakamato_blockchain.Fork.Limits.{
  IsLinked, handle_fork-IsLinked, handle_fork-utxo_set, IsLinked-append,
}
use nakamato_blockchain.PeerManager.{is_blacklisted}
use nakamato_blockchain.Server.{
  BlockchainServer, forwarded, link_block, handle_block_submission, request_block_by_hash,
}

-- The chains that `HandleBlockSubmission` can leave.
pub data Left (p : Primitives) (answer : ℕ → Str → Option Block) (s : BlockchainServer) (b : Block)
    (hashes : List Str) : Blockchain → Type 0 where
  same : Left p answer s b hashes s.blockchain
  added :
      (last : Block)
      → Block.verify p b ≡ true
      → get_last_block s.blockchain ≡ some last
      → b.header.previous_hash ≡ last.hash
      → Left p answer s b hashes (add_block p s.blockchain b).1
  forked :
      Block.verify p b ≡ true
      → Left p answer s b hashes
          (handle_fork p s.blockchain hashes (request_block_by_hash s.peer_manager answer)).1

forwarded-blockchain :
    (e : Error) (s : BlockchainServer) (b : Block) (hashes : List Str)
    (r : Result (Unit {0}) × Blockchain)
    → (forwarded e s b hashes r).server.blockchain ≡ r.1
forwarded-blockchain e s b hashes (ok _, bc) = refl
forwarded-blockchain e s b hashes (err _, bc) = refl
forwarded-blockchain e s b hashes (panic, bc) = refl

link_block-Left :
    (p : Primitives) (answer : ℕ → Str → Option Block) (s : BlockchainServer) (b : Block)
    (hashes : List Str) (o : Option Block)
    → Block.verify p b ≡ true
    → get_last_block s.blockchain ≡ o
    → Left p answer s b hashes (link_block p answer s b hashes o).server.blockchain
unfolding link_block
link_block-Left p answer s b hashes none v l = same
link_block-Left p answer s b hashes (some last) v l =
    elim (Bool-cases (str_eq b.header.previous_hash last.hash)) [
      | inl e ↦ rw e (
          rw (forwarded-blockchain add_block_failed s b hashes (add_block p s.blockchain b))
            (added last v l (ground (arith, e))))
      | inr e ↦ elim (Option-cases (get_block_by_hash s.blockchain b.hash)) [
        | inr (old, known) ↦ rw (e, known) same
        | inl known ↦
            rw (e, known)
              (rw
                (forwarded-blockchain fork_failed s b hashes
                  (handle_fork p s.blockchain hashes (request_block_by_hash s.peer_manager answer)))
                (forked v))
      ]
    ]

handle_block_submission-Left :
    (p : Primitives) (answer : ℕ → Str → Option Block) (s : BlockchainServer) (b : Block)
    (hashes : List Str) (peer : Str)
    → Left p answer s b hashes (handle_block_submission p answer s b hashes peer).server.blockchain
unfolding handle_block_submission
handle_block_submission-Left p answer s b hashes peer =
    let quiet =
      eq_ℤ s.mode (pos 3) && leb_ℤ (pos 1) b.header.height && ltb_ℤ b.header.height (pos 5) in
    elim (Bool-cases (is_blacklisted s.peer_manager peer)) [
      | inl black ↦ rw black same
      | inr white ↦ elim (Bool-cases quiet) [
        | inl held ↦ rw (white, held) same
        | inr open_ ↦ elim (Bool-cases (Block.verify p b)) [
          | inl v ↦
              rw (white, open_, v)
                (link_block-Left p answer s b hashes (get_last_block s.blockchain) v refl)
          | inr v ↦ rw (white, open_, v) same
        ]
      ]
    ]

-- Whatever block, hashes and answers a peer sends, a chain in which every later block is valid and
-- names the hash of the one before it is still one after `HandleBlockSubmission`, or has no block
-- left.
pub handle_block_submission-IsLinked :
    (p : Primitives) (answer : ℕ → Str → Option Block) (s : BlockchainServer) (b : Block)
    (hashes : List Str) (peer : Str)
    → IsLinked p s.blockchain.blocks
    → IsLinked p (handle_block_submission p answer s b hashes peer).server.blockchain.blocks
      ⊎ ((handle_block_submission p answer s b hashes peer).server.blockchain.blocks ≡ [])
handle_block_submission-IsLinked p answer s b hashes peer l =
    go _ (handle_block_submission-Left p answer s b hashes peer)
  where
    grown :
        (last : Block)
        → Block.verify p b ≡ true
        → get_last_block s.blockchain ≡ some last
        → b.header.previous_hash ≡ last.hash
        → IsLinked p (add_block p s.blockchain b).1.blocks
    grown last v e linked = elim (outcome (add_block p s.blockchain b).0) [
      | returned _ h ↦
          let (_, _, _, step) = add_block_ok p s.blockchain b h in
          subst (IsLinked p) (sym (ap (λ r. r.1.blocks) step))
            (IsLinked-append p s.blockchain.blocks last b l (unfold get_last_block in e) linked v)
      | failed r h ↦ subst (IsLinked p) (sym (add_block_kept p s.blockchain b (λ k. cc (k, h)))) l
      | panicked h ↦ subst (IsLinked p) (sym (add_block_kept p s.blockchain b (λ k. cc (k, h)))) l
    ]

    go : (bc : Blockchain) → Left p answer s b hashes bc → IsLinked p bc.blocks ⊎ (bc.blocks ≡ [])
    go _ same = inl l
    go _ (added last v e linked) = inl (grown last v e linked)
    go _ (forked v) =
        elim (handle_fork-IsLinked p s.blockchain hashes
          (request_block_by_hash s.peer_manager answer) l) [
            | inl k ↦ inl k
            | inr (_, empty) ↦ inr empty
          ]

-- `HandleBlockSubmission` never adds to the total value of the UTXO set, where the output amounts
-- of the block are int64 values.
pub handle_block_submission-supply :
    (p : Primitives) (answer : ℕ → Str → Option Block) (s : BlockchainServer) (b : Block)
    (hashes : List Str) (peer : Str)
    → All HasInt64Outputs b.content.transactions
    → supply (handle_block_submission p answer s b hashes peer).server.blockchain.utxo_set
      ≤ supply s.blockchain.utxo_set
handle_block_submission-supply p answer s b hashes peer small =
    go _ (handle_block_submission-Left p answer s b hashes peer)
  where
    grown : supply (add_block p s.blockchain b).1.utxo_set ≤ supply s.blockchain.utxo_set
    grown =
        let le = add_block-supply p s.blockchain.utxo_set b small in
        unfold add_block in ground (arith, le)

    go :
        (bc : Blockchain)
        → Left p answer s b hashes bc
        → supply bc.utxo_set ≤ supply s.blockchain.utxo_set
    go _ same = omega arith
    go _ (added last v e linked) = grown
    go _ (forked v) =
        let request = request_block_by_hash s.peer_manager answer in
        omega (arith, ap supply (handle_fork-utxo_set p s.blockchain hashes request))
