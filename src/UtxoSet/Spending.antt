-- ===== src/UtxoSet/Spending.antt =====
-- `AddTransaction`: when it succeeds, what it does to the set, and what it leaves after an error.
use nakamato_blockchain.Base.{
  ℕ, suc, ◌+◌, ◌≤◌, ◌≡◌, ◌↔◌, refl, ap, true, List, [], ◌∷◌, arith, ◌∙◌, drop, drop-eq-cons,
}
use nakamato_blockchain.Base.Int.{pos}
use nakamato_blockchain.Types.{Utxo, Transaction, Result, ok, err, utxo_not_found}
use nakamato_blockchain.Crypto.{Primitives}
use nakamato_blockchain.Transaction
use nakamato_blockchain.Transaction.{get_utxo}
use nakamato_blockchain.UtxoSet.{
  UtxoSet, check_inputs, check_transaction, add_utxo, remove_utxo, for_each, add_outputs,
  add_transaction,
}
use nakamato_blockchain.UtxoSet.Counting.{
  occurrences, count, stamped, check_utxo-count, count-add_utxo, remove_inputs-ok,
  remove_inputs-count, for_each-cons, for_each-cons_err, remove_utxo-found, remove_utxo-missing,
}

add_outputs-count :
    (tx : Transaction) (i : ℕ) (rest : List Utxo) (u : UtxoSet) (y : Utxo)
    → drop i tx.content.output_utxos ≡ rest
    → count y (add_outputs tx i rest u) ≡ count y u + occurrences y (stamped tx.hash rest)
unfolding add_outputs occurrences stamped
add_outputs-count tx i [] u y h = omega arith
add_outputs-count tx i (x ∷ rest) u y h =
    let (here, next) = drop-eq-cons i tx.content.output_utxos x rest h in
    let e : get_utxo tx (pos i) ≡ ok (record x { tx_id = tx.hash }) =
      unfold get_utxo in ground arith in
    let stamp : Utxo = record x { tx_id = tx.hash } in
    rw e (
      omega (
        arith,
        add_outputs-count tx (suc i) rest (add_utxo u stamp) y next,
        count-add_utxo stamp y u,
      ))

check_inputs-count :
    (u : UtxoSet) (xs : List Utxo)
    → ((y : Utxo) → occurrences y xs ≤ count y u)
    → check_inputs u xs ≡ true
unfolding check_inputs occurrences
check_inputs-count u [] h = refl
check_inputs-count u (x ∷ xs) h =
    ground (arith, h x, check_utxo-count u x, check_inputs-count u xs (λ y. ground (arith, h y)))

module _ (p : Primitives) (u : UtxoSet) (tx : Transaction) where
  abbrev removed : Result (Unit {0}) × UtxoSet
  removed = for_each remove_utxo u tx.content.input_utxos

  -- A call that succeeds has verified the transaction, removed all inputs and added all outputs.
  pub add_transaction_ok :
      (add_transaction p u tx).0 ≡ ok tt
      → (check_transaction p u tx ≡ true)
        × (removed.0 ≡ ok tt)
        × (add_transaction p u tx ≡ (ok tt, add_outputs tx 0 tx.content.output_utxos removed.1))
  unfolding add_transaction
  add_transaction_ok h = ground arith

  -- `AddTransaction` succeeds exactly when the transaction verifies and each UTXO occurs among its
  -- inputs at most as often as it stands in the set, so that no copy is spent twice.
  pub add_transaction_succeeds : ((add_transaction p u tx).0 ≡ ok tt) ↔ (
      (Transaction.verify p tx ≡ true)
      × ((y : Utxo) → occurrences y tx.content.input_utxos ≤ count y u))
  add_transaction_succeeds = (
    λ h.
        let (checked, removes, _) = add_transaction_ok h in
        (
          unfold check_transaction in ground arith,
          λ y. omega (arith, remove_inputs-count tx.content.input_utxos u removes y),
        ),
    λ h.
        let checks = check_inputs-count u tx.content.input_utxos h.1 in
        let removes = remove_inputs-ok tx.content.input_utxos u h.1 in
        unfold add_transaction check_transaction in rw (h.0, checks, removes),
  )

  -- When `UTXOSet.AddTransaction` succeeds, each UTXO has lost the copies that were spent and
  -- gained those that were made, which carry the hash of the transaction.
  pub add_transaction-count :
      (add_transaction p u tx).0 ≡ ok tt
      → (y : Utxo)
      → count y (add_transaction p u tx).1 + occurrences y tx.content.input_utxos
        ≡ count y u + occurrences y (stamped tx.hash tx.content.output_utxos)
  add_transaction-count h y =
      let (_, removes, e) = add_transaction_ok h in
      rw e (
        omega (
          arith,
          add_outputs-count tx 0 tx.content.output_utxos removed.1 y refl,
          remove_inputs-count tx.content.input_utxos u removes y,
        ))

-- A transaction whose inputs begin with one UTXO twice and which passes `CheckTransaction` on a set
-- that holds the UTXO once is refused by `AddTransaction`, and the set that is left has lost the
-- UTXO.
pub add_transaction-repeated_input :
    (p : Primitives) (u : UtxoSet) (tx : Transaction) (x : Utxo) (rest : List Utxo)
    → tx.content.input_utxos ≡ x ∷ x ∷ rest
    → check_transaction p u tx ≡ true
    → count x u ≡ 1
    → ((add_transaction p u tx).0 ≡ err utxo_not_found) × (count x (add_transaction p u tx).1 ≡ 0)
unfolding add_transaction
add_transaction-repeated_input p u tx x rest inputs checked once =
    let (done, eq) = remove_utxo-found x x u (omega arith) in
    let u1 = (remove_utxo u x).1 in
    let gone : count x u1 ≡ 0 = ground (arith, eq, once) in
    let loop : for_each remove_utxo u tx.content.input_utxos ≡ (err utxo_not_found, u1) =
      rw inputs (
        for_each-cons remove_utxo u x (x ∷ rest) done
        ∙ for_each-cons_err remove_utxo u1 x rest utxo_not_found (remove_utxo-missing x u1 gone)) in
    rw (checked, ap (λ r. r.0) loop) (refl, rw (ap (λ r. r.1) loop) gone)
