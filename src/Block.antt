-- ===== src/Block.antt =====
-- internal/blockchain/block.go.
pub mod Validity
pub mod Work
use nakamato_blockchain.Base.{
  ℕ, Bool, true, false, Option, none, some, List, [], ◌∷◌, ◌++◌, if◌then◌else◌,
}
use nakamato_blockchain.Base.Int.{ℤ, pos, ltb_ℤ}
use nakamato_blockchain.Base.Text.{Str, str_eq}
use nakamato_blockchain.Types.{
  Transaction, BlockHeader, BlockContent, Block, Error, transaction_hash_empty,
  transaction_verification_failed, Result, ok, err, panic, ◌>>=◌,
}
use nakamato_blockchain.Crypto.{Primitives, text, block_header, hash_of, set_string}
use nakamato_blockchain.Transaction

-- `strings.Join(parts, "")`
unfoldable pub join : List Str → Str
join [] = []
join (s ∷ ss) = s ++ join ss

module _ (p : Primitives) where
  -- The loop of `CalculateContentHash`.
  unfoldable pub transaction_hashes : List Transaction → Result (List Str)
  transaction_hashes [] = ok []
  transaction_hashes (tx ∷ txs) =
      let rest = transaction_hashes txs in
      if str_eq tx.hash []
      then err transaction_hash_empty
      else if Transaction.verify p tx
      then (rest >>= λ hs. ok (tx.hash ∷ hs))
      else err transaction_verification_failed

  unfoldable pub calculate_content_hash : Block → Result Str
  unfolding transaction_hashes join
  calculate_content_hash b =
      transaction_hashes b.content.transactions >>= λ hs. hash_of p (text (join hs))

  unfoldable pub calculate_hash : Block → Result Str
  calculate_hash b = hash_of p (block_header b.header)

  -- The hash as a number lies below the difficulty as a number.
  unfoldable pub verify_hash : Block → Str → Bool
  verify_hash b hash = ltb_ℤ (set_string p hash) (set_string p b.header.difficulty)

  abbrev verify_with : Block → Result Str → Result Str → Bool
  verify_with b (ok content_hash) (ok hash) =
      if str_eq content_hash b.header.content_hash
      then (if str_eq hash b.hash then verify_hash b hash else false)
      else false
  verify_with b (ok content_hash) _ = false
  verify_with b _ _ = false

  unfoldable pub verify : Block → Bool
  verify b = verify_with b (calculate_content_hash b) (calculate_hash b)

  unfoldable pub new_block : ℤ → Str → ℤ → Str → List Transaction → Result Block
  new_block now previous_hash height difficulty transactions =
      let block : Block = record {
        header = record {
          timestamp = now;
          previous_hash = previous_hash;
          content_hash = [];
          height = height;
          difficulty = difficulty;
          nonce = pos 0;
        };
        content = record { transactions = transactions };
        hash = [];
      } in
      calculate_content_hash block >>= λ content_hash.
      ok (record block { header = record block.header { content_hash = content_hash } })
