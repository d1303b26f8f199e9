-- ===== src/Server/Search/Found.antt =====
-- What the search for a nonce finds, and that it finds one.
use nakamato_blockchain.Base.{
  ◌≡◌, refl, subst, true, false, some, List, [], ◌∷◌, ◌++◌, All, arith, Option-cases, Bool-cases,
  inl, inr,
}
use nakamato_blockchain.Base.Int.{ℤ, pos, leb_ℤ}
use nakamato_blockchain.Base.Text.{Str}
use nakamato_blockchain.Types.{Transaction, Block, ok, err, panic}
use nakamato_blockchain.Crypto.{Primitives}
use nakamato_blockchain.Block
use nakamato_blockchain.Block.{calculate_content_hash, calculate_hash, verify_hash, new_block}
use nakamato_blockchain.Blockchain.{Blockchain, get_last_block, create_block}
use nakamato_blockchain.Server.Search.{Try, nonce_of, with_nonce, hash_text, next_candidate, search}
use nakamato_blockchain.Server.Mining.{found}
use nakamato_blockchain.Server.Search.Ready.{
  IsReady, HeadersMarshalled, IsSolved, with_nonce-IsReady, create_block-IsReady,
  next_candidate-IsReady, ready-verify,
}

module _ (p : Primitives) where
  -- A ready block that meets its difficulty, and its hash.
  abbrev IsFound : Block × Str → Type 0
  IsFound r = IsReady p r.0 × IsSolved p r.0 × (r.1 ≡ hash_text (calculate_hash p r.0))

  -- The search stops at a block that meets the difficulty.
  search-solved :
      (b : Block) (ts : List Try)
      → IsSolved p b
      → search p b ts ≡ some (ok (b, hash_text (calculate_hash p b)))
  unfolding search
  search-solved b [] solved = ground (arith, solved)
  search-solved b (t ∷ ts) solved = ground (arith, solved)

  solved-IsFound :
      (b : Block) (r : Block × Str) (ts : List Try)
      → IsReady p b
      → IsSolved p b
      → search p b ts ≡ some (ok r)
      → IsFound r
  solved-IsFound b r ts ready solved h =
      let same : (b, hash_text (calculate_hash p b)) ≡ r = cc (search-solved b ts solved, h) in
      let here : IsFound (b, hash_text (calculate_hash p b)) = (ready, solved, refl) in
      subst IsFound same here

  search-IsFound :
      (b : Block) (r : Block × Str) (ts : List Try)
      → IsReady p b
      → search p b ts ≡ some (ok r)
      → IsFound r
  unfolding search
  search-IsFound b r [] ready h =
      elim (Bool-cases (verify_hash p b (hash_text (calculate_hash p b)))) [
        | inl e ↦ solved-IsFound b r [] ready e h
        | inr e ↦ absurd (ground (arith, h, e))
      ]
  search-IsFound b r (t ∷ ts) ready h =
      elim (Bool-cases (verify_hash p b (hash_text (calculate_hash p b)))) [
        | inl e ↦ solved-IsFound b r (t ∷ ts) ready e h
        | inr e ↦ elim (Option-cases (next_candidate p b t)) [
          | inl f ↦ absurd (ground (arith, h, e, f))
          | inr (ok c, f) ↦
              search-IsFound c r ts (next_candidate-IsReady p b c t ready f)
                (ground (arith, h, e, f))
          | inr (err x, f) ↦ absurd (ground (arith, h, e, f))
          | inr (panic, f) ↦ absurd (ground (arith, h, e, f))
        ]
      ]

  -- Whatever the search of `MineBlocks` returns passes `Verify` with its hash put in, also where
  -- the chain advanced and it went on with a new block. The search began with a block that
  -- `CreateBlock` returned, and JSON of a header never fails.
  pub search-verify :
      (now : ℤ) (bc : Blockchain) (txs : List Transaction) (b c : Block) (hash : Str)
      (ts : List Try)
      → HeadersMarshalled p
      → create_block p now bc txs ≡ ok b
      → search p b ts ≡ some (ok (c, hash))
      → Block.verify p (found c hash) ≡ true
  search-verify now bc txs b c hash ts marshalled created h =
      let (ready, solved, same) =
        search-IsFound b (c, hash) ts (create_block-IsReady p now bc txs b created) h in
      rw same (ready-verify p c marshalled ready solved)

  -- The block is above the node's last one.
  abbrev pub IsAhead : Block → Try → Type 0
  IsAhead b t =
      (last : Block) × (get_last_block t.server.blockchain ≡ some last)
      × (leb_ℤ b.header.height last.header.height ≡ false)

  next_candidate-IsAhead :
      (b : Block) (t : Try)
      → IsAhead b t
      → next_candidate p b t ≡ some (ok (with_nonce (pos (nonce_of t)) b))
  unfolding next_candidate
  next_candidate-IsAhead b t (last, tip, ahead) = ground (arith, tip, ahead)

  -- The search from b ends at b with some nonce, which meets the difficulty.
  abbrev Ends : Block → List Try → Type 0
  Ends b ts =
      (n : ℤ) × IsSolved p (with_nonce n b)
      × (search p b ts ≡ some (ok (with_nonce n b, hash_text (calculate_hash p (with_nonce n b)))))

  search_step :
      (b : Block) (t : Try) (ts : List Try)
      → IsAhead b t
      → Ends (with_nonce (pos (nonce_of t)) b) ts
      → Ends b (t ∷ ts)
  unfolding search
  search_step b t ts ahead (n, solved, h) =
      elim (Bool-cases (verify_hash p b (hash_text (calculate_hash p b)))) [
        | inl e ↦ (b.header.nonce, e, search-solved b (t ∷ ts) e)
        | inr e ↦ (n, solved, ground (arith, h, e, next_candidate-IsAhead b t ahead))
      ]

  search-Ends :
      (b : Block) (before after : List Try) (t : Try)
      → All (IsAhead b) (before ++ t ∷ [])
      → IsSolved p (with_nonce (pos (nonce_of t)) b)
      → Ends b (before ++ t ∷ after)
  search-Ends b [] after t (ahead, _) solved =
      search_step b t after ahead (pos (nonce_of t), solved, search-solved _ after solved)
  search-Ends b (u ∷ before) after t (ahead, rest) solved =
      search_step b u (before ++ t ∷ after) ahead
        (search-Ends (with_nonce (pos (nonce_of u)) b) before after t rest solved)

  -- The search of `MineBlocks` ends: from a block that `CreateBlock` returned, with the block above
  -- the last one of the node's chain at each try, up to one whose nonce meets the difficulty, it
  -- returns the block with some nonce and a hash with which it passes `Verify`. JSON of a header
  -- never fails.
  pub search_finds :
      (now : ℤ) (bc : Blockchain) (txs : List Transaction) (b : Block) (before after : List Try)
      (t : Try)
      → HeadersMarshalled p
      → create_block p now bc txs ≡ ok b
      → All (IsAhead b) (before ++ t ∷ [])
      → IsSolved p (with_nonce (pos (nonce_of t)) b)
      → (n : ℤ) × (hash : Str) × (search p b (before ++ t ∷ after)
          ≡ some (ok (with_nonce n b, hash)))
        × (Block.verify p (found (with_nonce n b) hash) ≡ true)
  search_finds now bc txs b before after t marshalled created ahead solved =
      let (n, met, h) = search-Ends b before after t ahead solved in
      let ready = with_nonce-IsReady p n b (create_block-IsReady p now bc txs b created) in
      (
        n,
        hash_text (calculate_hash p (with_nonce n b)),
        h,
        ready-verify p (with_nonce n b) marshalled ready met,
      )
