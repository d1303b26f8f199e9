-- ===== src/Client/Created.antt =====
-- What `createTransaction` makes, from a client's set to the pool of a miner.
use nakamato_blockchain.Base.{
  ℕ, ◌≤◌, ◌<◌, ◌≡◌, sym, ap, subst, true, false, List, ◌++◌, arith, All, ◌∙◌, dec_lt,
}
use nakamato_blockchain.Base.Int.{ℤ, pos, int64_half}
use nakamato_blockchain.Base.Text.{Str}
use nakamato_blockchain.Types.{Utxo, Transaction, ok, err, not_enough_funds, ok-inj}
use nakamato_blockchain.Crypto.{Primitives, key_to_addr}
use nakamato_blockchain.Block.Work.{HasDigests}
use nakamato_blockchain.Transaction
use nakamato_blockchain.Transaction.{verify_content, new_transaction}
use nakamato_blockchain.Transaction.Value.{value}
use nakamato_blockchain.Transaction.Create.{IsSpendable, IsPayment, new_transaction_succeeds}
use nakamato_blockchain.UtxoSet
use nakamato_blockchain.UtxoSet.{UtxoSet, utxo_eq, get, get_utxos}
use nakamato_blockchain.UtxoSet.Counting.{occurrences, count}
use nakamato_blockchain.UtxoSet.Spending.{add_transaction_succeeds}
use nakamato_blockchain.UtxoSet.Selection.{get_utxos_selects, get_utxos_refuses}
use nakamato_blockchain.UtxoSet.{check_transaction}
use nakamato_blockchain.Blockchain
use nakamato_blockchain.TransactionPool
use nakamato_blockchain.TransactionPool.Stale.{get-add_transaction}
use nakamato_blockchain.Convert.{convert_transaction_to_grpc}
use nakamato_blockchain.Convert.RoundTrip.{HasInt32Index, transaction_round_trip}
use nakamato_blockchain.Server.{BlockchainServer, handle_transaction_submission}
use nakamato_blockchain.Server.Submission.{handle_transaction_submission_accepts}
use nakamato_blockchain.Server.Incoming.{submit_transaction}
use nakamato_blockchain.Client.{create_for}
use nakamato_blockchain.Client.Prefix.{All-prefix, value-prefix, occurrences-prefix}
use nakamato_blockchain.Client.Signing.{
  IsKeyPair, Splits, IsMarshalled, new_transaction-content, sign_verifies,
}

-- What a client has created: a transaction that its set takes, from spendable inputs, paying the
-- amount to the receiver.
pub record IsCreated (p : Primitives) (u : UtxoSet) (sender receiver : Str) (amount : ℕ)
    (tx : Transaction) : Type 0 where
  pub inputs : List Utxo
  pub rest : List Utxo
  pub selected : get u (key_to_addr p sender) ≡ inputs ++ rest
  pub pays : IsPayment p inputs sender receiver amount tx
  pub verified : Transaction.verify p tx ≡ true
  pub taken : (UtxoSet.add_transaction p u tx).0 ≡ ok tt

module _ (p : Primitives) (now : ℤ) (random : ℕ) (u : UtxoSet) (sender private_str receiver : Str)
    (amount : ℕ) (k : IsKeyPair p random private_str sender) (digests : HasDigests p)
    (marshalled : IsMarshalled p)
    (splits : (chosen : List Utxo) (draft : Transaction)
      → get_utxos u (key_to_addr p sender) (pos amount) ≡ ok chosen
      → new_transaction p now chosen sender receiver (pos amount) ≡ ok draft
      → Splits p random k.private_key draft)
    (spendable : All (IsSpendable (key_to_addr p sender)) (get u (key_to_addr p sender)))
    (small : value (get u (key_to_addr p sender)) < int64_half) (positive : 0 < amount)
    (enough : amount ≤ value (get u (key_to_addr p sender))) where
  -- A client whose UTXOs at the sender's address are spendable, worth less than 2 ^ 63 together and
  -- cover a positive amount creates a transaction for it: it spends a beginning of them, pays the
  -- amount to the receiver and the rest to the sender, verifies, and is taken by the client's set.
  -- The keys are a pair under which ECDSA accepts what it signs, the two numbers of this signature
  -- have fitting lengths, a digest is one or more bytes, and JSON of a transaction never fails.
  pub create_for_succeeds :
      (tx : Transaction) × (create_for p now random u sender private_str receiver (pos amount)
        ≡ ok tx)
      × IsCreated p u sender receiver amount tx
  create_for_succeeds =
      let a = key_to_addr p sender in
      let (chosen, selects, sel) = get_utxos_selects u a amount spendable small enough in
      let owned : All (IsSpendable a) chosen =
        All-prefix (IsSpendable a) chosen sel.rest
          (subst (All (IsSpendable a)) sel.is_prefix spendable) in
      let less : value chosen < int64_half =
        omega (arith, value-prefix chosen sel.rest, ap value sel.is_prefix) in
      let (draft, made, pays) =
        new_transaction_succeeds p now chosen sender receiver amount owned less positive
          (omega (arith, sel.covers)) in
      let (content, from) =
        new_transaction-content p now chosen sender receiver (pos amount) draft made in
      let (signature, hash, signs, verifies) =
        sign_verifies p random draft private_str sender k (sym from)
          (splits chosen draft selects made) digests marshalled content in
      let tx : Transaction = record draft { signature = signature; hash = hash } in
      (
        tx,
        unfold create_for in rw (selects, made, signs),
        record {
          inputs = chosen;
          rest = sel.rest;
          selected = sel.is_prefix;
          pays = record {
            inputs_spent = pays.inputs_spent;
            value_kept = pays.value_kept;
            outputs_made = pays.outputs_made;
          };
          verified = verifies;
          taken = (add_transaction_succeeds p u tx).1 (
            verifies,
            λ y.
                subst (λ xs. occurrences y xs ≤ count y u) (sym pays.inputs_spent)
                  (occurrences-prefix u a chosen sel.rest y sel.is_prefix owned),
          );
        },
      )

-- What is created is covered.
pub create_for-funds :
    (p : Primitives) (now : ℤ) (random : ℕ) (u : UtxoSet) (sender private_str receiver : Str)
    (amount : ℕ) (tx : Transaction)
    → All (IsSpendable (key_to_addr p sender)) (get u (key_to_addr p sender))
    → value (get u (key_to_addr p sender)) < int64_half
    → create_for p now random u sender private_str receiver (pos amount) ≡ ok tx
    → amount ≤ value (get u (key_to_addr p sender))
create_for-funds p now random u sender private_str receiver amount tx spendable small made =
    elim (dec_lt (value (get u (key_to_addr p sender))) amount) [
      | no enough ↦ omega (arith, enough)
      | yes short ↦
          let refused : get_utxos u (key_to_addr p sender) (pos amount) ≡ err not_enough_funds =
            get_utxos_refuses u (key_to_addr p sender) amount spendable small short in
          absurd (unfold create_for in ground (arith, made, refused))
    ]

taken-checked :
    (p : Primitives) (u : UtxoSet) (tx : Transaction)
    → (UtxoSet.add_transaction p u tx).0 ≡ ok tt
    → check_transaction p u tx ≡ true
unfolding UtxoSet.add_transaction
taken-checked p u tx h = ground (arith, h)

-- Every node that has it neither in its pool nor in its chain takes what was created.
IsCreated-pooled :
    (p : Primitives) (u : UtxoSet) (sender receiver : Str) (amount : ℕ) (tx : Transaction)
    (s : BlockchainServer)
    → IsCreated p u sender receiver amount tx
    → All HasInt32Index (get u (key_to_addr p sender))
    → TransactionPool.has_transaction s.tx_pool tx.hash ≡ false
    → Blockchain.has_transaction s.blockchain tx.hash ≡ false
    → ((submit_transaction p s (convert_transaction_to_grpc tx)).result ≡ ok true)
      × (TransactionPool.get
            (submit_transaction p s (convert_transaction_to_grpc tx)).server.tx_pool
            tx.hash
          ≡ ok tx)
      × (check_transaction p u tx ≡ true)
IsCreated-pooled p u sender receiver amount tx s c small fresh new =
    let fits_inputs : All HasInt32Index tx.content.input_utxos =
      subst (All HasInt32Index) (sym c.pays.inputs_spent)
        (All-prefix HasInt32Index c.inputs c.rest (subst (All HasInt32Index) c.selected small)) in
    let fits_outputs : All HasInt32Index tx.content.output_utxos =
      subst (All HasInt32Index) (sym c.pays.outputs_made) (ground arith) in
    let arrives = transaction_round_trip tx (fits_inputs, fits_outputs) in
    let accepted = (handle_transaction_submission_accepts p s tx).1 (c.verified, fresh, new) in
    let pooled : (handle_transaction_submission p s tx).server.tx_pool
        ≡ (TransactionPool.add_transaction s.tx_pool tx).1 =
      unfold handle_transaction_submission in ground (arith, c.verified, fresh, new) in
    unfold submit_transaction in
    rw arrives (
      accepted,
      rw pooled (get-add_transaction s.tx_pool tx tx.hash ∙ ground (arith, fresh)),
      taken-checked p u tx c.taken,
    )

module _ (p : Primitives) (now : ℤ) (random : ℕ) (u : UtxoSet) (sender private_str receiver : Str)
    (amount : ℕ) (tx : Transaction) (k : IsKeyPair p random private_str sender)
    (digests : HasDigests p) (marshalled : IsMarshalled p)
    (splits : (chosen : List Utxo) (draft : Transaction)
      → get_utxos u (key_to_addr p sender) (pos amount) ≡ ok chosen
      → new_transaction p now chosen sender receiver (pos amount) ≡ ok draft
      → Splits p random k.private_key draft)
    (spendable : All (IsSpendable (key_to_addr p sender)) (get u (key_to_addr p sender)))
    (small : value (get u (key_to_addr p sender)) < int64_half) (positive : 0 < amount)
    (made : create_for p now random u sender private_str receiver (pos amount) ≡ ok tx) where
  create_for-IsCreated : IsCreated p u sender receiver amount tx
  create_for-IsCreated =
      let (tx', made', created) =
        create_for_succeeds p now random u sender private_str receiver amount k digests marshalled
          splits spendable small positive
          (create_for-funds p now random u sender private_str receiver amount tx spendable small
            made) in
      subst (IsCreated p u sender receiver amount) (ok-inj tx' tx (sym made' ∙ made)) created

  -- A transaction that the client creates for a positive amount, from UTXOs at the sender's address
  -- that are spendable and worth less than 2 ^ 63 together, is accepted by every node that has it
  -- neither in its pool nor in its chain: after the conversion to a message and back it is in the
  -- pool under its hash, the same as it was, and it passes the check of a set such as the client's.
  -- Both keys parse, ECDSA signs with the private one and accepts under the sender's what it signs,
  -- s of this signature has as many significant bytes as r or one more, a digest is one or more
  -- bytes, JSON of a transaction never fails, and the indices at the sender's address fit an int32.
  pub created_pooled :
      (s : BlockchainServer)
      → All HasInt32Index (get u (key_to_addr p sender))
      → TransactionPool.has_transaction s.tx_pool tx.hash ≡ false
      → Blockchain.has_transaction s.blockchain tx.hash ≡ false
      → ((submit_transaction p s (convert_transaction_to_grpc tx)).result ≡ ok true)
        × (TransactionPool.get
              (submit_transaction p s (convert_transaction_to_grpc tx)).server.tx_pool
              tx.hash
            ≡ ok tx)
        × (check_transaction p u tx ≡ true)
  created_pooled s = IsCreated-pooled p u sender receiver amount tx s create_for-IsCreated
