-- ===== src/Blockchain/Growth.antt =====
-- `AddBlock`: the chain stays linked, and grows by one verified block or not at all.
use nakamato_blockchain.Base.{
  ℕ, zero, suc, ◌<◌, ◌≤◌, ◌≡◌, ◌≢◌, refl, sym, ap, subst, true, some, inl, inr, ◌⊎◌, List, [], ◌∷◌,
  ◌++◌, arith, length, get_last?, get_elem?, get_last?-append, ◌∙◌, ◌-◌, get_elem?-append_last,
  get_last?-get_elem?, length-append,
}
use nakamato_blockchain.Base.Int.{ℤ, pos, ◌+ℤ◌, wrap64, int64_half}
use nakamato_blockchain.Types.{
  Utxo, Block, Result, Outcome, returned, failed, panicked, outcome, ok,
}
use nakamato_blockchain.Crypto.{Primitives}
use nakamato_blockchain.UtxoSet
use nakamato_blockchain.Block
use nakamato_blockchain.Block.{new_block}
use nakamato_blockchain.Block.Validity.{IsValid, verified-IsValid, new_block-unmined}
use nakamato_blockchain.Difficulty.{get_difficulty, initial_difficulty}
use nakamato_blockchain.Blockchain.{
  Blockchain, new_blockchain, check_link, add_block, get_block_by_height,
}

-- The block that may come after another.
pub record Extends (p : Primitives) (a b : Block) : Type 0 where
  pub hash_linked : b.header.previous_hash ≡ a.hash
  pub height_linked : b.header.height ≡ wrap64 (a.header.height +ℤ pos 1)
  pub is_valid : IsValid p b

-- A chain of blocks that begins at height 0.
pub data IsChain (p : Primitives) : List Block → Type 0 where
  genesis : (g : Block) → g.header.height ≡ pos 0 → IsChain p (g ∷ [])
  extended :
      (bs : List Block) (a b : Block)
      → IsChain p bs
      → get_last? bs ≡ some a
      → Extends p a b
      → IsChain p (bs ++ b ∷ [])

-- What has held when `AddBlock` returns with no error.
pub add_block_ok :
    (p : Primitives) (bc : Blockchain) (b : Block)
    → (add_block p bc b).0 ≡ ok tt
    → (Block.verify p b ≡ true)
      × (check_link (get_last? bc.blocks) b ≡ ok tt)
      × ((UtxoSet.add_block p bc.utxo_set b).0 ≡ ok tt)
      × (add_block p bc b ≡ (
        ok tt,
        record { blocks = bc.blocks ++ b ∷ []; utxo_set = (UtxoSet.add_block p bc.utxo_set b).1 },
      ))
unfolding add_block
add_block_ok p bc b h = ground arith

check_link-ok :
    (p : Primitives) (a b : Block)
    → Block.verify p b ≡ true
    → check_link (some a) b ≡ ok tt
    → Extends p a b
unfolding check_link
check_link-ok p a b v h = record {
  hash_linked = ground arith;
  height_linked = ground arith;
  is_valid = verified-IsValid p b v;
}

pub chain-last :
    (p : Primitives) (bs : List Block) → IsChain p bs → (a : Block) × (get_last? bs ≡ some a)
chain-last p _ (genesis g h) = (g, refl)
chain-last p _ (extended bs a b c l e) = (b, get_last?-append bs b)

pub add_block_kept :
    (p : Primitives) (bc : Blockchain) (b : Block)
    → (add_block p bc b).0 ≢ ok tt
    → (add_block p bc b).1.blocks ≡ bc.blocks
unfolding add_block
add_block_kept p bc b n = ground arith

-- What `AddBlock` has done: appended the block, or failed and left the blocks as they were.
abbrev pub Appended : Blockchain → Block → Result (Unit {0}) × Blockchain → Type 0
Appended bc b r =
    ((r.0 ≡ ok tt) × (r.1.blocks ≡ bc.blocks ++ b ∷ []))
    ⊎ ((r.0 ≢ ok tt) × (r.1.blocks ≡ bc.blocks))

-- `Blockchain.AddBlock` keeps a chain a chain: it starts at height 0, and every later block names
-- the hash of the one before it, has the next height and is valid. It appends the block when it
-- succeeds, and leaves the blocks as they were when it does not.
pub add_block-IsChain :
    (p : Primitives) (bc : Blockchain) (b : Block)
    → IsChain p bc.blocks
    → IsChain p (add_block p bc b).1.blocks × Appended bc b (add_block p bc b)
add_block-IsChain p bc b c = elim (outcome (add_block p bc b).0) [
  | returned _ h ↦
      let (v, link, _, e) = add_block_ok p bc b h in
      let (a, l) = chain-last p bc.blocks c in
      let linked = check_link-ok p a b v (ap (λ o. check_link o b) (sym l) ∙ link) in
      let grown = ap (λ r. r.1.blocks) e in
      (subst (IsChain p) (sym grown) (extended bc.blocks a b c l linked), inl (h, grown))
  | failed r h ↦ kept (λ k. cc (k, h))
  | panicked h ↦ kept (λ k. cc (k, h))
]
  where
    kept :
        (add_block p bc b).0 ≢ ok tt
        → IsChain p (add_block p bc b).1.blocks × Appended bc b (add_block p bc b)
    kept n = let same = add_block_kept p bc b n in (subst (IsChain p) (sym same) c, inr (n, same))

pub new_blockchain-genesis :
    (p : Primitives) (now : ℤ) (utxos : List Utxo) (bc : Blockchain)
    → new_blockchain p now utxos ≡ ok bc
    → (g : Block) × (bc.blocks ≡ g ∷ []) × (g.header.height ≡ pos 0) × (g.hash ≡ [])
new_blockchain-genesis p now utxos bc h =
    go (outcome (new_block p now [] (pos 0) initial_difficulty []))
  where
    start : get_difficulty p [] 0 ≡ ok initial_difficulty
    start = unfold get_difficulty in refl

    go :
        Outcome (new_block p now [] (pos 0) initial_difficulty [])
        → (g : Block) × (bc.blocks ≡ g ∷ []) × (g.header.height ≡ pos 0) × (g.hash ≡ [])
    go (returned g e) =
        let (shape, _) = new_block-unmined p now [] (pos 0) initial_difficulty [] g e in
        (
          g,
          unfold new_blockchain in ground (arith, start, e, h),
          ap (λ (d : Block). d.header.height) shape,
          ap (λ (d : Block). d.hash) shape,
        )
    go (failed r e) = absurd (unfold new_blockchain in ground (arith, start, e, h))
    go (panicked e) = absurd (unfold new_blockchain in ground (arith, start, e, h))

-- A new node's chain is a chain: its one block is the genesis block.
pub new_blockchain-IsChain :
    (p : Primitives) (now : ℤ) (utxos : List Utxo) (bc : Blockchain)
    → new_blockchain p now utxos ≡ ok bc
    → IsChain p bc.blocks
new_blockchain-IsChain p now utxos bc h =
    let (g, e, height, _) = new_blockchain-genesis p now utxos bc h in rw e (genesis g height)

pub wrap64-next : (n i : ℕ) → 0 < n → i ≡ n → n < int64_half → wrap64 (pos (n - 1) +ℤ pos 1) ≡ pos i
unfolding wrap64 ◌+ℤ◌
wrap64-next n i h e k = ground arith

pub chain-height :
    (p : Primitives) (bs : List Block)
    → IsChain p bs
    → (i : ℕ) (b : Block) → get_elem? bs i ≡ some b
    → length bs ≤ int64_half
    → b.header.height ≡ pos i
chain-height p _ (genesis g h) zero b e small =
    let same : g ≡ b = cc in subst (λ (d : Block). d.header.height ≡ pos 0) same h
chain-height p _ (genesis g h) (suc i) b e small = cc
chain-height p _ (extended bs a c chain l x) i b e small = elim (get_elem?-append_last bs c i b e) [
  | inl earlier ↦ chain-height p bs chain i b earlier (omega (arith, length-append bs (c ∷ [])))
  | inr (at_end, same) ↦
      let size = length-append bs (c ∷ []) in
      let (some_block, found) = get_last?-get_elem? bs a l in
      let before = chain-height p bs chain (length bs - 1) a found (omega (arith, size)) in
      subst (λ (d : Block). d.header.height ≡ pos i) same
        (x.height_linked
          ∙ ap (λ z. wrap64 (z +ℤ pos 1)) before
          ∙ wrap64-next (length bs) i some_block at_end (omega (arith, size)))
]

-- In a chain of at most 2 ^ 63 blocks, the block that `GetBlockByHeight` returns has the height
-- that was asked for.
pub get_block_by_height-IsChain :
    (p : Primitives) (bc : Blockchain) (i : ℕ) (b : Block)
    → IsChain p bc.blocks
    → length bc.blocks ≤ int64_half
    → get_block_by_height bc (pos i) ≡ some b
    → b.header.height ≡ pos i
unfolding get_block_by_height
get_block_by_height-IsChain p bc i b chain small e = chain-height p bc.blocks chain i b e small
