-- ===== src/UtxoSet/Removal.antt =====
-- `RemoveBlock` against `AddBlock`. The set keeps outputs under the hash of their transaction, while
-- `RemoveBlock` looks for them as they stand in the block, with an empty TxID.
use mathlib.Core.List.{reverse, reverse-append}
use nakamato_blockchain.Base.{
  ◌≡◌, ◌≢◌, refl, ap, subst, true, some, List, [], ◌∷◌, ◌++◌, arith, All, and-eq-true,
}
use nakamato_blockchain.Base.Int.{pos}
use nakamato_blockchain.Base.Text.{Str}
use nakamato_blockchain.Types.{Utxo, Transaction, Block, ok, err, remove_failed, utxo_not_found}
use nakamato_blockchain.Crypto.{Primitives}
use nakamato_blockchain.Transaction
use nakamato_blockchain.Transaction.{verify_outputs}
use nakamato_blockchain.Transaction.Value.{verify_content-IsVerified}
use nakamato_blockchain.UtxoSet.{
  UtxoSet, check_transaction, check_transactions, remove_utxo, for_each, add_block,
  remove_transaction, remove_block,
}
use nakamato_blockchain.UtxoSet.Counting.{
  occurrences, count, stamped, occurrences-append, for_each-cons_err, remove_utxo-missing,
}
use nakamato_blockchain.UtxoSet.Blocks.{made, add_block_effect}

-- No UTXO in the set has an empty TxID.
abbrev pub IsStamped : UtxoSet → Type 0
IsStamped u = (y : Utxo) → y.tx_id ≡ [] → count y u ≡ 0

occurrences-stamped :
    (y : Utxo) (hash : Str) (xs : List Utxo)
    → y.tx_id ≡ []
    → hash ≢ []
    → occurrences y (stamped hash xs) ≡ 0
unfolding occurrences stamped
occurrences-stamped y hash [] e n = refl
occurrences-stamped y hash (x ∷ xs) e n = ground (arith, occurrences-stamped y hash xs e n)

abbrev pub HasHash : Transaction → Type 0
HasHash tx = tx.hash ≢ []

occurrences-made :
    (y : Utxo) (txs : List Transaction)
    → y.tx_id ≡ []
    → All HasHash txs
    → occurrences y (made txs) ≡ 0
unfolding made
occurrences-made y [] e h = unfold occurrences in refl
occurrences-made y (tx ∷ txs) e h = omega (
  arith,
  occurrences-append y (stamped tx.hash tx.content.output_utxos) (made txs),
  occurrences-stamped y tx.hash tx.content.output_utxos e h.0,
  occurrences-made y txs e h.1,
)

pub add_block-IsStamped :
    (p : Primitives) (u : UtxoSet) (b : Block)
    → IsStamped u
    → (add_block p u b).0 ≡ ok tt
    → All HasHash b.content.transactions
    → IsStamped (add_block p u b).1
add_block-IsStamped p u b s h hashes y e =
    omega
      (arith, add_block_effect p u b h y, s y e, occurrences-made y b.content.transactions e hashes)

check_transactions-last :
    (p : Primitives) (u : UtxoSet) (txs : List Transaction) (tx : Transaction)
    → check_transactions p u (txs ++ tx ∷ []) ≡ true
    → check_transaction p u tx ≡ true
unfolding check_transactions
check_transactions-last p u [] tx h = ground arith
check_transactions-last p u (t ∷ txs) tx h = check_transactions-last p u txs tx (ground arith)

verified_output :
    (p : Primitives) (u : UtxoSet) (tx : Transaction) (x : Utxo) (rest : List Utxo)
    → check_transaction p u tx ≡ true
    → tx.content.output_utxos ≡ x ∷ rest
    → x.tx_id ≡ []
verified_output p u tx x rest h e =
    let verified : Transaction.verify p tx ≡ true = unfold check_transaction in ground arith in
    let fits : Transaction.verify_content p tx ≡ true =
      unfold Transaction.verify in
      (and-eq-true (Transaction.verify_content p tx) (Transaction.verify_signature p tx)
        verified).0 in
    let v = verify_content-IsVerified p tx fits in
    let outputs : verify_outputs 0 (pos 0) (x ∷ rest) ≡ some v.total =
      subst (λ l. verify_outputs 0 (pos 0) l ≡ some v.total) e v.outputs_total in
    unfold verify_outputs in ground arith

remove_transaction-err :
    (u : UtxoSet) (tx : Transaction)
    → for_each remove_utxo u tx.content.output_utxos ≡ (err utxo_not_found, u)
    → remove_transaction u tx ≡ (err remove_failed, u)
unfolding remove_transaction
remove_transaction-err u tx h =
    rw (ap (λ r. r.0) h, remove_transaction) (ap (λ r. (err remove_failed, r.1)) h)

remove_block-err :
    (u : UtxoSet) (b : Block) (txs : List Transaction) (tx : Transaction)
    → b.content.transactions ≡ txs ++ tx ∷ []
    → remove_transaction u tx ≡ (err remove_failed, u)
    → remove_block u b ≡ (err remove_failed, u)
unfolding remove_block
remove_block-err u b txs tx shape h =
    rw (shape, reverse-append txs (tx ∷ []))
      (for_each-cons_err remove_transaction u tx (reverse txs) remove_failed h)

-- A block cannot be taken back: in a set with no empty TxID, after `AddBlock` of a block whose last
-- transaction has an output and whose transactions all have a hash, `RemoveBlock` of that block
-- fails and changes nothing.
pub remove_block-add_block :
    (p : Primitives) (u : UtxoSet) (b : Block) (txs : List Transaction) (tx : Transaction)
    → IsStamped u
    → (add_block p u b).0 ≡ ok tt
    → All HasHash b.content.transactions
    → b.content.transactions ≡ txs ++ tx ∷ []
    → tx.content.output_utxos ≢ []
    → remove_block (add_block p u b).1 b ≡ (err remove_failed, (add_block p u b).1)
remove_block-add_block p u b txs tx s h hashes shape some_out = go tx.content.output_utxos refl
  where
    u1 : UtxoSet
    u1 = (add_block p u b).1

    checked : check_transaction p u tx ≡ true
    checked =
        check_transactions-last p u txs tx
          (subst (λ l. check_transactions p u l ≡ true) shape (unfold add_block in ground arith))

    go :
        (outs : List Utxo)
        → tx.content.output_utxos ≡ outs
        → remove_block u1 b ≡ (err remove_failed, u1)
    go [] e = absurd (some_out e)
    go (x ∷ rest) e =
        let bare = verified_output p u tx x rest checked e in
        let missing = add_block-IsStamped p u b s h hashes x bare in
        let inner : for_each remove_utxo u1 tx.content.output_utxos ≡ (err utxo_not_found, u1) =
          rw e (
            for_each-cons_err remove_utxo u1 x rest utxo_not_found
              (remove_utxo-missing x u1 missing)) in
        remove_block-err u1 b txs tx shape (remove_transaction-err u1 tx inner)
