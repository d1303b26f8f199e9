-- ===== src/Server/Round.antt =====
-- When a turn of `MineBlocks` publishes a block.
use nakamato_blockchain.Base.{
  ◌-◌, ◌<◌, ◌≡◌, refl, sym, ap, true, false, some, List, [], ◌∷◌, ◌++◌, All, arith, length,
  get_last?, get_last?-get_elem?, ◌∙◌,
}
use nakamato_blockchain.Base.Int.{ℤ, pos, leb_ℤ, ◌+ℤ◌, wrap64, int64_half}
use nakamato_blockchain.Base.Text.{Str}
use nakamato_blockchain.Types.{Transaction, Block, returned, failed, panicked, outcome, ok}
use nakamato_blockchain.Crypto.{Primitives}
use nakamato_blockchain.Block
use nakamato_blockchain.Block.{new_block}
use nakamato_blockchain.Block.Validity.{new_block-unmined}
use nakamato_blockchain.UtxoSet
use nakamato_blockchain.UtxoSet.{UtxoSet, check_transactions, check_transaction, for_each}
use nakamato_blockchain.UtxoSet.Counting.{for_each-cons}
use nakamato_blockchain.UtxoSet.Spending.{add_transaction_ok}
use nakamato_blockchain.Difficulty.{get_difficulty}
use nakamato_blockchain.Blockchain
use nakamato_blockchain.Blockchain.{
  Blockchain, get_last_block, create_block, hash_or_empty, check_link, get_last_100_hashes,
}
use nakamato_blockchain.Blockchain.Growth.{IsChain, chain-last, chain-height, wrap64-next}
use nakamato_blockchain.TransactionPool.{get_up_to_n_transactions}
use nakamato_blockchain.Server.{BlockchainServer, Reply, broadcast_block}
use nakamato_blockchain.Server.Mining.{
  Turn, next, create_block_with_transactions, found, mined_block_published,
}
use nakamato_blockchain.Server.Turns.{mine_turn}
use nakamato_blockchain.Server.Search.{View, wait_for_block, Try, nonce_of, with_nonce, search}
use nakamato_blockchain.Server.Search.Ready.{HeadersMarshalled, IsSolved}
use nakamato_blockchain.Server.Search.Found.{IsAhead, search_finds}

-- What `CreateBlock` has put into the block.
pub record IsCreatedOn (bc : Blockchain) (txs : List Transaction) (b : Block) : Type 0 where
  pub linked : b.header.previous_hash ≡ hash_or_empty (get_last? bc.blocks)
  pub above : b.header.height ≡ pos (length bc.blocks)
  pub holds_txs : b.content.transactions ≡ txs

pub create_block-IsCreatedOn :
    (p : Primitives) (now : ℤ) (bc : Blockchain) (txs : List Transaction) (b : Block)
    → create_block p now bc txs ≡ ok b
    → IsCreatedOn bc txs b
unfolding create_block
create_block-IsCreatedOn p now bc txs b h =
    elim (outcome (get_difficulty p bc.blocks (length bc.blocks))) [
      | returned d e ↦
          let (shape, _) =
            new_block-unmined p now (hash_or_empty (get_last? bc.blocks)) (pos (length bc.blocks)) d
              txs b (ground (arith, h, e)) in
          record {
            linked = ap (λ c. c.header.previous_hash) shape;
            above = ap (λ c. c.header.height) shape;
            holds_txs = ap (λ c. c.content.transactions) shape;
          }
      | failed r e ↦ absurd (ground (arith, h, e))
      | panicked e ↦ absurd (ground (arith, h, e))
    ]

add_block-one :
    (p : Primitives) (u : UtxoSet) (b : Block) (tx : Transaction)
    → b.content.transactions ≡ tx ∷ []
    → (UtxoSet.add_transaction p u tx).0 ≡ ok tt
    → UtxoSet.add_block p u b ≡ (ok tt, (UtxoSet.add_transaction p u tx).1)
add_block-one p u b tx one added =
    let (checked, _, _) = add_transaction_ok p u tx added in
    let checks : check_transactions p u b.content.transactions ≡ true =
      rw one (unfold check_transactions in ground (arith, checked)) in
    let none_left : for_each (UtxoSet.add_transaction p) (UtxoSet.add_transaction p u tx).1 []
        ≡ (ok tt, (UtxoSet.add_transaction p u tx).1) =
      unfold for_each in refl in
    unfold UtxoSet.add_block in
    rw checks (rw one (for_each-cons (UtxoSet.add_transaction p) u tx [] added ∙ none_left))

module _ (p : Primitives) (s : BlockchainServer) (tx : Transaction) (b : Block) (now : ℤ)
    (chain : IsChain p s.blockchain.blocks) (small : length s.blockchain.blocks < int64_half)
    (created : create_block p now s.blockchain (tx ∷ []) ≡ ok b)
    (spends : (UtxoSet.add_transaction p s.blockchain.utxo_set tx).0 ≡ ok tt) where
  -- The height that the block has follows that of the last block.
  pub last_below :
      (last : Block) × (get_last_block s.blockchain ≡ some last)
      × (last.header.height ≡ pos (length s.blockchain.blocks - 1))
      × (0 < length s.blockchain.blocks)
  unfolding get_last_block
  last_below =
      let (last, tip) = chain-last p s.blockchain.blocks chain in
      let (some_block, at_end) = get_last?-get_elem? s.blockchain.blocks last tip in
      (
        last,
        tip,
        chain-height p s.blockchain.blocks chain _ last at_end (omega (arith, small)),
        some_block,
      )

  pub created_added :
      (n : ℤ) (hash : Str)
      → Block.verify p (found (with_nonce n b) hash) ≡ true
      → Blockchain.add_block p s.blockchain (found (with_nonce n b) hash) ≡ (
        ok tt,
        record {
          blocks = s.blockchain.blocks ++ found (with_nonce n b) hash ∷ [];
          utxo_set = (UtxoSet.add_transaction p s.blockchain.utxo_set tx).1;
        },
      )
  created_added n hash verified =
      let made = create_block-IsCreatedOn p now s.blockchain (tx ∷ []) b created in
      let (last, tip, height, some_block) = last_below in
      let at_end : get_last? s.blockchain.blocks ≡ some last = unfold get_last_block in tip in
      let prev : b.header.previous_hash ≡ last.hash = made.linked ∙ ap hash_or_empty at_end in
      let next_height : b.header.height ≡ wrap64 (last.header.height +ℤ pos 1) =
        made.above
        ∙ sym (
            wrap64-next (length s.blockchain.blocks) (length s.blockchain.blocks) some_block refl
              small)
        ∙ ap (λ z. wrap64 (z +ℤ pos 1)) (sym height) in
      let link : check_link (get_last? s.blockchain.blocks) (found (with_nonce n b) hash) ≡ ok tt =
        ap (λ o. check_link o (found (with_nonce n b) hash)) at_end
        ∙ unfold check_link in ground (arith, prev, next_height) in
      let set =
        add_block-one p s.blockchain.utxo_set (found (with_nonce n b) hash) tx made.holds_txs
          spends in
      unfold Blockchain.add_block in ground (arith, verified, link, set)

  -- The node as it was when the round of the search began.
  abbrev IsQuiet : Try → Type 0
  IsQuiet t = t.server.blockchain ≡ s.blockchain

  quiet-IsAhead : (t : Try) → IsQuiet t → IsAhead p b t
  quiet-IsAhead t quiet =
      let made = create_block-IsCreatedOn p now s.blockchain (tx ∷ []) b created in
      let (last, tip, height, some_block) = last_below in
      (last, ap get_last_block quiet ∙ tip, ground (arith, height, made.above, some_block))

  quiet-All : (ts : List Try) → All IsQuiet ts → All (IsAhead p b) ts
  quiet-All [] h = tt
  quiet-All (t ∷ ts) (h, hs) = (quiet-IsAhead t h, quiet-All ts hs)

  -- The chain and the UTXO set with the block found.
  abbrev pub chain_with : Block → Blockchain
  chain_with c = record {
    blocks = s.blockchain.blocks ++ c ∷ [];
    utxo_set = (UtxoSet.add_transaction p s.blockchain.utxo_set tx).1;
  }

  -- What a turn that finds a block returns.
  abbrev pub published : Block → Reply Turn
  published c = record {
    result = ok next;
    server = record s { blockchain = chain_with c };
    sent = broadcast_block s.peer_manager c (get_last_100_hashes (chain_with c));
  }

  module _ (order : List Transaction) (views : List View) (before after : List Try) (t : Try)
      (honest : s.mode ≡ pos 0)
      (chosen : get_up_to_n_transactions p (pos 1) s.blockchain.utxo_set order ≡ tx ∷ [])
      (marshalled : HeadersMarshalled p) (quiet : All IsQuiet (before ++ t ∷ []))
      (solved : IsSolved p (with_nonce (pos (nonce_of t)) b)) where
    pub mine_turn-published :
        (n : ℤ) × (hash : Str) × (search p b (before ++ t ∷ after)
          ≡ some (ok (with_nonce n b, hash)))
        × (Blockchain.add_block p s.blockchain (found (with_nonce n b) hash)
            ≡ (ok tt, chain_with (found (with_nonce n b) hash)))
        × (b.header.height ≡ pos (length s.blockchain.blocks))
        × (b.content.transactions ≡ tx ∷ [])
        × (mine_turn p
              (record { server = s; now = now; order = order } ∷ views)
              (before ++ t ∷ after)
              s
            ≡ some (published (found (with_nonce n b) hash)))
    unfolding mine_turn wait_for_block create_block_with_transactions
    mine_turn-published =
        let made = create_block-IsCreatedOn p now s.blockchain (tx ∷ []) b created in
        let (last, tip, height, some_block) = last_below in
        let (n, hash, search_ok, verified) =
          search_finds p now s.blockchain (tx ∷ []) b before after t marshalled created
            (quiet-All (before ++ t ∷ []) quiet) solved in
        let ahead : leb_ℤ b.header.height last.header.height ≡ false =
          ground (arith, height, made.above, some_block) in
        let added = created_added n hash verified in
        let done =
          mined_block_published p s (with_nonce n b) last hash honest tip ahead
            (ap (λ r. r.0) added) in
        (
          n,
          hash,
          search_ok,
          added,
          made.above,
          made.holds_txs,
          ground (arith, chosen, created, search_ok, done, ap (λ r. r.1) added),
        )

    -- On a chain of fewer than 2 ^ 63 blocks that is one, a node in mode 0 whose visit of the pool
    -- chooses a transaction that its UTXO set takes and of which `CreateBlock` makes a block mines
    -- it: where its chain stays as it is during the search and one of the nonces drawn meets the
    -- difficulty, the turn of `MineBlocks` ends with a block of just this transaction appended, the
    -- UTXO set updated, and the block sent to every peer. JSON of a header never fails.
    pub mine_turn_publishes :
        (c : Block) × (c.content.transactions ≡ tx ∷ [])
        × (mine_turn p
              (record { server = s; now = now; order = order } ∷ views)
              (before ++ t ∷ after)
              s
            ≡ some (published c))
    mine_turn_publishes =
        let (n, hash, _, _, _, holds, turn) = mine_turn-published in
        (found (with_nonce n b) hash, holds, turn)
