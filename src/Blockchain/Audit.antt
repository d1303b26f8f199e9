-- ===== src/Blockchain/Audit.antt =====
-- `Verify` on the chain of a node.
use nakamato_blockchain.Base.{
  ℕ, ◌≡◌, ◌≢◌, ap, subst, true, none, some, inl, inr, ◌⊎◌, List, [], ◌∷◌, ◌++◌, arith, length, ◌∙◌,
  Option-cases,
}
use nakamato_blockchain.Base.Int.{ℤ}
use nakamato_blockchain.Types.{Utxo, Block, returned, failed, panicked, outcome, ok}
use nakamato_blockchain.Encoding.Hex.{encode, length-encode}
use nakamato_blockchain.Crypto.{Primitives, block_header, hash_of}
use nakamato_blockchain.Block.Validity.{IsValid, verified-IsValid}
use nakamato_blockchain.Block.Work.{HasDigests}
use nakamato_blockchain.Blockchain.{Blockchain, new_blockchain, verify_from, verify, add_block}
use nakamato_blockchain.Blockchain.Growth.{new_blockchain-genesis, add_block_ok, add_block_kept}

-- The chain after some blocks were handed to `AddBlock` in turn.
abbrev pub add_blocks : Primitives → Blockchain → List Block → Blockchain
add_blocks p bc [] = bc
add_blocks p bc (b ∷ bs) = add_blocks p (add_block p bc b).1 bs

IsValid-hash : (p : Primitives) (b : Block) → HasDigests p → IsValid p b → b.hash ≢ []
IsValid-hash p b digests v e = go (Option-cases (p.marshal (block_header b.header)))
  where
    go :
        (p.marshal (block_header b.header) ≡ none)
          ⊎ ((json : List ℕ) × (p.marshal (block_header b.header) ≡ some json))
        → ⊥
    go (inl f) = unfold hash_of in ground (arith, v.header_hashed)
    go (inr (json, f)) =
        let text : encode (p.sha256 json) ≡ [] =
          unfold hash_of in ground (arith, v.header_hashed) in
        omega (arith, ap length text, length-encode (p.sha256 json), (digests json).1)

verify_from-unhashed :
    (p : Primitives) (blocks : List Block) (g : Block) (bs : List Block)
    → HasDigests p
    → g.hash ≡ []
    → verify_from p blocks 0 [] (g ∷ bs) ≢ ok true
verify_from-unhashed p blocks g bs digests bare h =
    IsValid-hash p g digests (verified-IsValid p g (unfold verify_from in ground (arith, h))) bare

add_block-first :
    (p : Primitives) (bc : Blockchain) (b g : Block) (rest : List Block)
    → bc.blocks ≡ g ∷ rest
    → (rest' : List Block) × ((add_block p bc b).1.blocks ≡ g ∷ rest')
add_block-first p bc b g rest e = elim (outcome (add_block p bc b).0) [
  | returned _ h ↦
      let (_, _, _, grown) = add_block_ok p bc b h in
      (rest ++ b ∷ [], ap (λ r. r.1.blocks) grown ∙ ap (λ l. l ++ b ∷ []) e)
  | failed r h ↦ (rest, add_block_kept p bc b (λ k. cc (k, h)) ∙ e)
  | panicked h ↦ (rest, add_block_kept p bc b (λ k. cc (k, h)) ∙ e)
]

verify-unhashed :
    (p : Primitives) (bc : Blockchain) (g : Block) (rest bs : List Block)
    → HasDigests p
    → bc.blocks ≡ g ∷ rest
    → g.hash ≡ []
    → verify p (add_blocks p bc bs) ≢ ok true
verify-unhashed p bc g rest [] digests e bare h =
    verify_from-unhashed p bc.blocks g rest digests bare
      (unfold verify in subst (λ l. verify_from p bc.blocks 0 [] l ≡ ok true) e h)
verify-unhashed p bc g rest (b ∷ bs) digests e bare h =
    let (rest', grown) = add_block-first p bc b g rest e in
    verify-unhashed p (add_block p bc b).1 g rest' bs digests grown bare h

-- `Blockchain.Verify` never returns true on a chain that `NewBlockchain` began and `AddBlock`
-- extended, for digests of one or more bytes: the genesis block is kept with an empty hash and
-- fails its own check.
pub verify-new_blockchain :
    (p : Primitives) (now : ℤ) (utxos : List Utxo) (bc : Blockchain) (bs : List Block)
    → HasDigests p
    → new_blockchain p now utxos ≡ ok bc
    → verify p (add_blocks p bc bs) ≢ ok true
verify-new_blockchain p now utxos bc bs digests h =
    let (g, e, _, bare) = new_blockchain-genesis p now utxos bc h in
    verify-unhashed p bc g [] bs digests e bare
