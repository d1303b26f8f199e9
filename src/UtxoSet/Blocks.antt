-- ===== src/UtxoSet/Blocks.antt =====
-- `AddBlock` of the UTXO set: all transactions of a block, after each was checked against the set as
-- it was before the block.
use nakamato_blockchain.Base.{
  ◌+◌, ◌≤◌, ◌<◌, ◌≡◌, refl, ap, true, false, inl, inr, List, [], ◌∷◌, ◌++◌, arith, Bool-cases, ◌∙◌,
  All,
}
use nakamato_blockchain.Types.{
  Utxo, Transaction, Block, ok, err, invalid_transaction, invalid_transaction_in_block,
}
use nakamato_blockchain.Crypto.{Primitives}
use nakamato_blockchain.Transaction.Value.{HasInt64Amount}
use nakamato_blockchain.UtxoSet.{
  UtxoSet, check_inputs, check_transaction, check_transactions, for_each, add_transaction,
  add_block,
}
use nakamato_blockchain.UtxoSet.Counting.{
  occurrences, count, stamped, occurrences-append, check_utxo-count, for_each-cons,
  for_each-cons_ok, for_each-cons_err,
}
use nakamato_blockchain.UtxoSet.Spending.{add_transaction-count}
use nakamato_blockchain.UtxoSet.Supply.{supply, for_each-supply, add_transaction-supply}

-- All inputs of some transactions, and all outputs as they stand in the set.
unfoldable pub spent : List Transaction → List Utxo
spent [] = []
spent (tx ∷ txs) = tx.content.input_utxos ++ spent txs

unfoldable pub made : List Transaction → List Utxo
made [] = []
made (tx ∷ txs) = stamped tx.hash tx.content.output_utxos ++ made txs

abbrev pub HasInt64Outputs : Transaction → Type 0
HasInt64Outputs tx = All HasInt64Amount tx.content.output_utxos

module _ (p : Primitives) where
  add_transactions-count :
      (txs : List Transaction) (u : UtxoSet) (y : Utxo)
      → (for_each (add_transaction p) u txs).0 ≡ ok tt
      → count y (for_each (add_transaction p) u txs).1 + occurrences y (spent txs)
        ≡ count y u + occurrences y (made txs)
  unfolding spent made
  add_transactions-count [] u y h = unfold for_each in refl
  add_transactions-count (tx ∷ txs) u y h =
      let done = for_each-cons_ok (add_transaction p) u tx txs h in
      let step = for_each-cons (add_transaction p) u tx txs done in
      rw step (
        omega (
          arith,
          add_transaction-count p u tx done y,
          add_transactions-count txs (add_transaction p u tx).1 y (rw step at h),
          occurrences-append y tx.content.input_utxos (spent txs),
          occurrences-append y (stamped tx.hash tx.content.output_utxos) (made txs),
        ))

module _ (p : Primitives) (u : UtxoSet) (b : Block) where
  add_block-loop :
      (add_block p u b).0 ≡ ok tt
      → add_block p u b ≡ for_each (add_transaction p) u b.content.transactions
  unfolding add_block
  add_block-loop h = ground arith

  -- When `UTXOSet.AddBlock` succeeds, each UTXO has lost as many copies in the set as the block's
  -- transactions spend of it, and gained as many as they make of it.
  pub add_block_effect :
      (add_block p u b).0 ≡ ok tt
      → (y : Utxo)
      → count y (add_block p u b).1 + occurrences y (spent b.content.transactions)
        ≡ count y u + occurrences y (made b.content.transactions)
  add_block_effect h y =
      let e = add_block-loop h in
      rw e (add_transactions-count p b.content.transactions u y (rw e at h))

  -- A block with a transaction that does not pass `CheckTransaction` on the set as it was, such as one
  -- that spends an output of the same block, is refused and the set stays as it was.
  pub add_block_refused :
      check_transactions p u b.content.transactions ≡ false
      → add_block p u b ≡ (err invalid_transaction_in_block, u)
  unfolding add_block
  add_block_refused h = rw h

-- `UTXOSet.AddBlock` never adds to the total value of the set, whether it succeeds, is refused or
-- stops half-way, where the output amounts of the block are int64 values.
pub add_block-supply :
    (p : Primitives) (u : UtxoSet) (b : Block)
    → All HasInt64Outputs b.content.transactions
    → supply (add_block p u b).1 ≤ supply u
unfolding add_block
add_block-supply p u b small = elim (Bool-cases (check_transactions p u b.content.transactions)) [
  | inl passed ↦ rw passed (
      for_each-supply (add_transaction p) HasInt64Outputs
        (λ v tx h. add_transaction-supply p v tx h) b.content.transactions u small)
  | inr refused ↦ rw refused (omega arith)
]

check_inputs-missing :
    (u : UtxoSet) (x : Utxo) (xs : List Utxo)
    → 0 < occurrences x xs
    → count x u ≡ 0
    → check_inputs u xs ≡ false
unfolding check_inputs occurrences
check_inputs-missing u x [] h k = absurd (omega arith)
check_inputs-missing u x (y ∷ xs) h k =
    ground (arith, check_utxo-count u x, check_utxo-count u y, check_inputs-missing u x xs)

-- A block whose transactions pass the check, and whose first two spend the same UTXO, of which the
-- set holds one copy and which the first does not make again, is refused by `UTXOSet.AddBlock` only
-- after the first transaction, if that succeeds: the set that is left is the one after it, without
-- the UTXO.
pub add_block-double_spend :
    (p : Primitives) (u : UtxoSet) (b : Block) (t1 t2 : Transaction) (rest : List Transaction)
    (x : Utxo)
    → b.content.transactions ≡ t1 ∷ t2 ∷ rest
    → check_transactions p u b.content.transactions ≡ true
    → (add_transaction p u t1).0 ≡ ok tt
    → 0 < occurrences x t1.content.input_utxos
    → 0 < occurrences x t2.content.input_utxos
    → occurrences x (stamped t1.hash t1.content.output_utxos) ≡ 0
    → count x u ≡ 1
    → (add_block p u b ≡ (err invalid_transaction, (add_transaction p u t1).1))
      × (count x (add_block p u b).1 ≡ 0)
add_block-double_spend p u b t1 t2 rest x txs checked first in1 in2 out1 once =
    let u1 = (add_transaction p u t1).1 in
    let gone : count x u1 ≡ 0 = omega (arith, add_transaction-count p u t1 first x) in
    let bad : check_transaction p u1 t2 ≡ false =
      unfold check_transaction in
      ground (arith, check_inputs-missing u1 x t2.content.input_utxos in2 gone) in
    let second : add_transaction p u1 t2 ≡ (err invalid_transaction, u1) =
      unfold add_transaction in rw bad in
    let e : add_block p u b ≡ (err invalid_transaction, u1) =
      unfold add_block in
      rw (checked, txs)
        (for_each-cons (add_transaction p) u t1 (t2 ∷ rest) first
          ∙ for_each-cons_err (add_transaction p) u1 t2 rest invalid_transaction second) in
    (e, ap (λ r. count x r.1) e ∙ gone)
