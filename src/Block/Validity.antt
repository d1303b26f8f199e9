-- ===== src/Block/Validity.antt =====
-- What a verified block is, and that a block whose nonce was found is one.
use nakamato_blockchain.Base.{
  ◌≡◌, ◌≢◌, ◌↔◌, refl, sym, subst, true, List, [], ◌∷◌, arith, All, map, ◌∙◌,
}
use nakamato_blockchain.Base.Int.{ℤ, pos}
use nakamato_blockchain.Base.Text.{Str}
use nakamato_blockchain.Types.{
  Transaction, Block, Outcome, returned, failed, panicked, outcome, ok, err, panic,
}
use nakamato_blockchain.Crypto.{Primitives, text, block_header, hash_of}
use nakamato_blockchain.Transaction
use nakamato_blockchain.Block.{
  join, transaction_hashes, calculate_content_hash, calculate_hash, verify_hash, verify, new_block,
}

-- A transaction that a block may hold.
abbrev pub IsAccepted : Primitives → Transaction → Type 0
IsAccepted p tx = (tx.hash ≢ []) × (Transaction.verify p tx ≡ true)

abbrev hashes_of : List Transaction → List Str
hashes_of = map (λ tx. tx.hash)

-- A block as its header promises it.
pub record IsValid (p : Primitives) (b : Block) : Type 0 where
  pub accepted : All (IsAccepted p) b.content.transactions
  pub content_hashed :
      hash_of p (text (join (hashes_of b.content.transactions))) ≡ ok b.header.content_hash
  pub header_hashed : hash_of p (block_header b.header) ≡ ok b.hash
  pub worked : verify_hash p b b.hash ≡ true

transaction_hashes-ok :
    (p : Primitives) (txs : List Transaction)
    → All (IsAccepted p) txs
    → transaction_hashes p txs ≡ ok (hashes_of txs)
unfolding transaction_hashes
transaction_hashes-ok p [] h = refl
transaction_hashes-ok p (tx ∷ txs) h = ground (arith, transaction_hashes-ok p txs h.1)

transaction_hashes-accepted :
    (p : Primitives) (txs : List Transaction) (hs : List Str)
    → transaction_hashes p txs ≡ ok hs
    → All (IsAccepted p) txs × (hs ≡ hashes_of txs)
unfolding transaction_hashes
transaction_hashes-accepted p [] hs h = (tt, ground arith)
transaction_hashes-accepted p (tx ∷ txs) [] h = ground arith
transaction_hashes-accepted p (tx ∷ txs) (k ∷ hs) h =
    ground (arith, transaction_hashes-accepted p txs hs)

pub verified-IsValid : (p : Primitives) (b : Block) → verify p b ≡ true → IsValid p b
unfolding verify calculate_hash
verified-IsValid p b h = elim (outcome (transaction_hashes p b.content.transactions)) [
  | returned hs e ↦
      let (accepted, same) = transaction_hashes-accepted p b.content.transactions hs e in
      let content : calculate_content_hash p b
          ≡ hash_of p (text (join (hashes_of b.content.transactions))) =
        unfold calculate_content_hash in rw (e, same) in
      record {
        accepted = accepted;
        content_hashed = sym content ∙ ground arith;
        header_hashed = ground arith;
        worked = ground arith;
      }
  | failed r e ↦
      let content : calculate_content_hash p b ≡ err r = unfold calculate_content_hash in rw e in
      absurd (ground arith)
  | panicked e ↦
      let content : calculate_content_hash p b ≡ panic = unfold calculate_content_hash in rw e in
      absurd (ground arith)
]

-- `Block.Verify` accepts exactly the blocks whose transactions all have a hash and verify, whose
-- content hash is that of the joined transaction hashes, whose hash is that of the header, and
-- whose hash lies below the difficulty.
pub verify-IsValid : (p : Primitives) (b : Block) → (verify p b ≡ true) ↔ IsValid p b
verify-IsValid p b = (
  verified-IsValid p b,
  λ v.
      let hashes = transaction_hashes-ok p b.content.transactions v.accepted in
      let content : calculate_content_hash p b ≡ ok b.header.content_hash =
        unfold calculate_content_hash in rw hashes v.content_hashed in
      unfold verify calculate_hash in ground arith,
)

-- The block that `NewBlock` builds from its arguments and a content hash.
abbrev pub unmined : ℤ → Str → ℤ → Str → List Transaction → Str → Block
unmined now previous_hash height difficulty txs content_hash = record {
  header = record {
    timestamp = now;
    previous_hash = previous_hash;
    content_hash = content_hash;
    height = height;
    difficulty = difficulty;
    nonce = pos 0;
  };
  content = record { transactions = txs };
  hash = [];
}

-- A block with a nonce and a hash put in, as the mining loop does.
abbrev pub mined : Block → ℤ → Str → Block
mined b nonce hash = record b { header = record b.header { nonce = nonce }; hash = hash }

module _ (p : Primitives) (now : ℤ) (previous_hash : Str) (height : ℤ) (difficulty : Str)
    (txs : List Transaction) (b : Block)
    (created : new_block p now previous_hash height difficulty txs ≡ ok b) where
  pub new_block-unmined :
      (b ≡ unmined now previous_hash height difficulty txs b.header.content_hash)
      × (calculate_content_hash p b ≡ ok b.header.content_hash)
  unfolding new_block
  new_block-unmined =
      go (outcome (calculate_content_hash p (unmined now previous_hash height difficulty txs [])))
    where
      go :
          Outcome (calculate_content_hash p (unmined now previous_hash height difficulty txs []))
          → (b ≡ unmined now previous_hash height difficulty txs b.header.content_hash)
            × (calculate_content_hash p b ≡ ok b.header.content_hash)
      go (returned c e) =
          let same : unmined now previous_hash height difficulty txs c ≡ b = cc (created, e) in
          subst
            (λ (d : Block).
              (d ≡ unmined now previous_hash height difficulty txs d.header.content_hash)
              × (calculate_content_hash p d ≡ ok d.header.content_hash))
            same (refl, unfold calculate_content_hash in e)
      go (failed r e) = absurd (cc (created, e))
      go (panicked e) = absurd (cc (created, e))

  -- Mining makes valid blocks: a block that `NewBlock` returned, with any nonce put in and the hash
  -- of the resulting header, passes `Verify` where the hash meets the difficulty.
  pub new_block_mined :
      (nonce : ℤ) (hash : Str)
      → hash_of p (block_header (mined b nonce hash).header) ≡ ok hash
      → verify_hash p (mined b nonce hash) hash ≡ true
      → verify p (mined b nonce hash) ≡ true
  new_block_mined nonce hash hashed worked =
      let content : calculate_content_hash p (mined b nonce hash) ≡ ok b.header.content_hash =
        unfold calculate_content_hash in new_block-unmined.1 in
      unfold verify calculate_hash in ground arith
