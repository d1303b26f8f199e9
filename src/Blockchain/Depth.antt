-- ===== src/Blockchain/Depth.antt =====
-- `GetTransactionDepth` and `HasTransaction`.
use mathlib.Core.List.{reverse, reverse-append, reverse-reverse, reverse-cons, append_assoc}
use nakamato_blockchain.Base.{
  ℕ, suc, ◌+◌, ◌≡◌, refl, sym, ap, true, false, inl, inr, List, [], ◌∷◌, ◌++◌, arith, length,
  length-append, ◌∙◌, Bool-cases, ◌||◌,
}
use nakamato_blockchain.Base.Int.{ℤ, pos, negsuc}
use nakamato_blockchain.Base.Text.{Str}
use nakamato_blockchain.Types.{Block}
use nakamato_blockchain.Blockchain.{
  Blockchain, any_hash, any_block, has_transaction, depth_from, get_transaction_depth,
}

-- The blocks from the newest, split at the first that holds the transaction.
data Found (tx_hash : Str) (depth : ℕ) (rs : List Block) (r : ℤ) : Type 0 where
  nowhere : any_block tx_hash rs ≡ false → r ≡ negsuc 0 → Found tx_hash depth rs r
  in_block :
      (newer : List Block) (b : Block) (older : List Block)
      → rs ≡ newer ++ b ∷ older
      → any_block tx_hash newer ≡ false
      → any_hash tx_hash b.content.transactions ≡ true
      → r ≡ pos (depth + length newer)
      → Found tx_hash depth rs r

depth_from-Found :
    (tx_hash : Str) (depth : ℕ) (rs : List Block)
    → Found tx_hash depth rs (depth_from tx_hash depth rs)
depth_from-Found tx_hash depth [] = unfold any_block depth_from in nowhere refl refl
depth_from-Found tx_hash depth (b ∷ bs) =
    elim (Bool-cases (any_hash tx_hash b.content.transactions)) [
      | inl here ↦
          in_block [] b bs refl (unfold any_block in refl) here
            (unfold depth_from in rw here (ap pos (omega arith)))
      | inr other ↦ elim (depth_from-Found tx_hash (suc depth) bs) [
        | nowhere a r ↦ nowhere (unfold any_block in rw other a) (unfold depth_from in rw other r)
        | in_block newer c older e a h r ↦
            in_block (b ∷ newer) c older (ap (◌∷◌ b) e) (unfold any_block in rw other a) h
              (unfold depth_from in rw other (r ∙ ap pos (omega arith)))
      ]
    ]

any_block-append :
    (tx_hash : Str) (xs ys : List Block)
    → any_block tx_hash (xs ++ ys) ≡ (any_block tx_hash xs || any_block tx_hash ys)
unfolding any_block
any_block-append tx_hash [] ys = refl
any_block-append tx_hash (x ∷ xs) ys = ground (arith, any_block-append tx_hash xs ys)

any_block-reverse :
    (tx_hash : Str) (xs : List Block) → any_block tx_hash (reverse xs) ≡ any_block tx_hash xs
unfolding any_block
any_block-reverse tx_hash [] = refl
any_block-reverse tx_hash (x ∷ xs) =
    rw (reverse-cons x xs) (
      any_block-append tx_hash (reverse xs) (x ∷ []) ∙ ground (arith, any_block-reverse tx_hash xs))

pub length-reverse : (xs : List Block) → length (reverse xs) ≡ length xs
length-reverse [] = refl
length-reverse (x ∷ xs) =
    omega
      (arith, ap length (reverse-cons x xs), length-append (reverse xs) (x ∷ []), length-reverse xs)

-- The depth of a transaction in a chain.
pub data Located (bc : Blockchain) (tx_hash : Str) : Type 0 where
  absent :
      has_transaction bc tx_hash ≡ false
      → get_transaction_depth bc tx_hash ≡ negsuc 0
      → Located bc tx_hash
  present :
      (older : List Block) (b : Block) (newer : List Block)
      → bc.blocks ≡ older ++ b ∷ newer
      → any_hash tx_hash b.content.transactions ≡ true
      → any_block tx_hash newer ≡ false
      → has_transaction bc tx_hash ≡ true
      → get_transaction_depth bc tx_hash ≡ pos (suc (length newer))
      → Located bc tx_hash

-- `GetTransactionDepth` returns -1 where `HasTransaction` returns false; otherwise it counts the
-- blocks from the newest one that holds the transaction up to the end of the chain, both included.
pub get_transaction_depth_cases : (bc : Blockchain) (tx_hash : Str) → Located bc tx_hash
unfolding get_transaction_depth has_transaction
get_transaction_depth_cases bc tx_hash = elim (depth_from-Found tx_hash 1 (reverse bc.blocks)) [
  | nowhere a r ↦ absent (sym (any_block-reverse tx_hash bc.blocks) ∙ a) r
  | in_block newer b older e a h r ↦
      let shape : bc.blocks ≡ reverse older ++ b ∷ reverse newer =
        sym (reverse-reverse bc.blocks)
        ∙ ap reverse e
        ∙ reverse-append newer (b ∷ older)
        ∙ ap (λ l. l ++ reverse newer) (reverse-cons b older)
        ∙ append_assoc (reverse older) (b ∷ []) (reverse newer) in
      present (reverse older) b (reverse newer) shape h (any_block-reverse tx_hash newer ∙ a)
        (ap (any_block tx_hash) shape
          ∙ any_block-append tx_hash (reverse older) (b ∷ reverse newer)
          ∙ unfold any_block in ground (arith, h))
        (r ∙ ap pos (omega (arith, length-reverse newer)))
]
