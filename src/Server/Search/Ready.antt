-- ===== src/Server/Search/Ready.antt =====
-- The blocks of the search keep their content hash, and pass `Verify` once they meet the difficulty.
use nakamato_blockchain.Base.{
  ℕ, ◌≡◌, refl, subst, true, some, List, [], ◌∷◌, arith, length, get_last?, Option-cases, ◌⊎◌, inl,
  inr,
}
use nakamato_blockchain.Base.Int.{ℤ, pos}
use nakamato_blockchain.Types.{
  Transaction, BlockHeader, Block, returned, failed, panicked, outcome, ok,
}
use nakamato_blockchain.Crypto.{Primitives, block_header, hash_of}
use nakamato_blockchain.Block
use nakamato_blockchain.Block.{calculate_content_hash, calculate_hash, verify_hash, new_block}
use nakamato_blockchain.Block.Validity.{new_block-unmined}
use nakamato_blockchain.Blockchain.{Blockchain, create_block, hash_or_empty}
use nakamato_blockchain.Difficulty.{get_difficulty}
use nakamato_blockchain.TransactionPool.{get_up_to_n_transactions}
use nakamato_blockchain.Encoding.Hex.{encode}
use nakamato_blockchain.Server.Search.{
  View, wait_for_block, Try, nonce_of, with_nonce, hash_text, next_candidate,
}
use nakamato_blockchain.Server.Mining.{create_block_with_transactions, found}

-- The content hash of the header is that of the transactions.
abbrev pub IsReady : Primitives → Block → Type 0
IsReady p b = calculate_content_hash p b ≡ ok b.header.content_hash

-- `json.Marshal` of a header never fails.
abbrev pub HeadersMarshalled : Primitives → Type 0
HeadersMarshalled p = (h : BlockHeader) → (json : List ℕ) × (p.marshal (block_header h) ≡ some json)

-- The block meets its difficulty.
abbrev pub IsSolved : Primitives → Block → Type 0
IsSolved p b = verify_hash p b (hash_text (calculate_hash p b)) ≡ true

module _ (p : Primitives) where
  pub with_nonce-IsReady : (n : ℤ) (b : Block) → IsReady p b → IsReady p (with_nonce n b)
  unfolding calculate_content_hash
  with_nonce-IsReady n b h = h

  pub create_block-IsReady :
      (now : ℤ) (bc : Blockchain) (txs : List Transaction) (b : Block)
      → create_block p now bc txs ≡ ok b
      → IsReady p b
  unfolding create_block
  create_block-IsReady now bc txs b h =
      elim (outcome (get_difficulty p bc.blocks (length bc.blocks))) [
        | returned d e ↦
            (new_block-unmined p now (hash_or_empty (get_last? bc.blocks)) (pos (length bc.blocks))
              d txs b (ground (arith, h, e))).1
        | failed r e ↦ absurd (ground (arith, h, e))
        | panicked e ↦ absurd (ground (arith, h, e))
      ]

  turn-IsReady :
      (v : View) (b : Block)
      → create_block_with_transactions p v.now v.server v.order ≡ some (ok b)
      → IsReady p b
  unfolding create_block_with_transactions
  turn-IsReady v b h =
      chosen (get_up_to_n_transactions p (pos 1) v.server.blockchain.utxo_set v.order) refl
    where
      chosen :
          (txs : List Transaction)
          → get_up_to_n_transactions p (pos 1) v.server.blockchain.utxo_set v.order ≡ txs
          → IsReady p b
      chosen [] e = absurd (ground (arith, h, e))
      chosen (tx ∷ txs) e =
          create_block-IsReady v.now v.server.blockchain (tx ∷ txs) b (ground (arith, h, e))

  wait_for_block-IsReady :
      (vs : List View) (b : Block) → wait_for_block p vs ≡ some (ok b) → IsReady p b
  unfolding wait_for_block
  wait_for_block-IsReady [] b h = absurd (ground (arith, h))
  wait_for_block-IsReady (v ∷ vs) b h =
      elim (Option-cases (create_block_with_transactions p v.now v.server v.order)) [
        | inl e ↦ wait_for_block-IsReady vs b (ground (arith, h, e))
        | inr (r, e) ↦ turn-IsReady v b (ground (arith, h, e))
      ]

  pub next_candidate_cases :
      (b c : Block) (t : Try)
      → next_candidate p b t ≡ some (ok c)
      → (with_nonce (pos (nonce_of t)) b ≡ c) ⊎ (wait_for_block p t.views ≡ some (ok c))
  unfolding next_candidate
  next_candidate_cases b c t h = ground (arith, h)

  pub next_candidate-IsReady :
      (b c : Block) (t : Try) → IsReady p b → next_candidate p b t ≡ some (ok c) → IsReady p c
  next_candidate-IsReady b c t ready h = elim (next_candidate_cases b c t h) [
    | inl e ↦ subst (IsReady p) e (with_nonce-IsReady (pos (nonce_of t)) b ready)
    | inr e ↦ wait_for_block-IsReady t.views c e
  ]

  pub ready-verify :
      (b : Block)
      → HeadersMarshalled p
      → IsReady p b
      → IsSolved p b
      → Block.verify p (found b (hash_text (calculate_hash p b))) ≡ true
  ready-verify b marshalled ready solved =
      let (json, e) = marshalled b.header in
      let hashed : calculate_hash p b ≡ ok (encode (p.sha256 json)) =
        unfold calculate_hash hash_of in ground (arith, e) in
      let worked : verify_hash p b (encode (p.sha256 json)) ≡ true =
        subst (λ r. verify_hash p b (hash_text r) ≡ true) hashed solved in
      let content : calculate_content_hash p (found b (encode (p.sha256 json)))
          ≡ ok b.header.content_hash =
        unfold calculate_content_hash in ready in
      rw hashed
        (unfold Block.verify calculate_hash verify_hash in ground (arith, content, hashed, worked))
