-- ===== src/Transaction/Create.antt =====
-- `NewTransaction`: when it succeeds, and what it then builds.
use nakamato_blockchain.Base.{
  ℕ, ◌+◌, ◌-◌, ◌≤◌, ◌<◌, ◌≡◌, ◌≢◌, refl, ap, true, false, some, inl, inr, List, [], ◌∷◌, arith, All,
  ◌∙◌, ltb, Bool-cases, if◌then◌else◌, get_elem?, ◌⊎◌,
}
use nakamato_blockchain.Base.Int.{
  ℤ, pos, negsuc, ◌+ℤ◌, ◌-ℤ◌, pos_part, leb_ℤ, ℤ-discrete, wrap64, int64_half,
}
use nakamato_blockchain.Base.Text.{Str, Str-discrete}
use nakamato_blockchain.Types.{Utxo, Transaction, ok, err, content_verification_failed}
use nakamato_blockchain.Crypto.{Primitives, key_to_addr}
use nakamato_blockchain.Transaction.{
  verify_inputs, verify_outputs, sum_amounts, verify_content, all_from, leftover_from,
  new_transaction, draft_transaction, new_outputs,
}
use nakamato_blockchain.Transaction.Value.{value, IsVerified, IsVerified-verify_content}

-- A UTXO that the owner of an address may spend.
abbrev pub IsSpendable : Str → Utxo → Type 0
IsSpendable a u = (0 < pos_part u.amount) × (u.tx_id ≢ []) × (u.address ≡ a)

pub wrap64-add_small :
    (n : ℕ) (a : ℤ)
    → 0 < pos_part a
    → n + pos_part a < int64_half
    → wrap64 (pos n +ℤ a) ≡ pos (n + pos_part a)
unfolding wrap64 ◌+ℤ◌
wrap64-add_small n (pos m) h k = ground arith
wrap64-add_small n (negsuc m) h k = absurd (omega arith)

wrap64-sub_small : (n m : ℕ) → m ≤ n → n < int64_half → wrap64 (pos n -ℤ pos m) ≡ pos (n - m)
unfolding wrap64 ◌-ℤ◌
wrap64-sub_small n m h k = ground arith

-- Below 2 ^ 63 no sum wraps.
pub sum_amounts-value :
    (n : ℕ) (a : Str) (us : List Utxo)
    → All (IsSpendable a) us
    → n + value us < int64_half
    → sum_amounts (pos n) us ≡ pos (n + value us)
unfolding sum_amounts value
sum_amounts-value n a [] h k = ap pos (omega arith)
sum_amounts-value n a (u ∷ us) h k =
    rw (wrap64-add_small n u.amount h.0.0 (omega arith))
      (sum_amounts-value (n + pos_part u.amount) a us h.1 (omega arith) ∙ ap pos (omega arith))

positive-leb : (a : ℤ) → 0 < pos_part a → leb_ℤ a (pos 0) ≡ false
positive-leb a h = ground arith

verify_inputs-spendable :
    (n : ℕ) (a : Str) (us : List Utxo)
    → All (IsSpendable a) us
    → n + value us < int64_half
    → (verify_inputs (pos n) us ≡ some (pos (n + value us))) × (all_from a us ≡ true)
unfolding verify_inputs value all_from
verify_inputs-spendable n a [] h k = (ap (λ m. some (pos m)) (omega arith), refl)
verify_inputs-spendable n a (u ∷ us) h k =
    let next = verify_inputs-spendable (n + pos_part u.amount) a us h.1 (omega arith) in
    let e : verify_inputs (wrap64 (pos n +ℤ u.amount)) us ≡ some (pos (n + value (u ∷ us))) =
      rw (wrap64-add_small n u.amount h.0.0 (omega arith))
        (next.0 ∙ ap (λ m. some (pos m)) (omega arith)) in
    (ground arith, ground arith)

-- `NewTransaction` builds a transaction whose content verifies, from the given inputs, and its first
-- output pays the amount to the receiver; or it fails with the one error.
pub new_transaction_result :
    (p : Primitives) (now : ℤ) (inputs : List Utxo) (sender receiver : Str) (amount : ℤ)
    → ((tx : Transaction) × (new_transaction p now inputs sender receiver amount ≡ ok tx)
        × (verify_content p tx ≡ true)
        × (tx.content.input_utxos ≡ inputs)
        × (tx.content.sender_pub_key ≡ sender)
        × (get_elem? tx.content.output_utxos 0
            ≡ some (record {
              tx_id = [];
              index = pos 0;
              amount = amount;
              address = key_to_addr p receiver;
            })))
      ⊎ (new_transaction p now inputs sender receiver amount ≡ err content_verification_failed)
unfolding new_transaction new_outputs
new_transaction_result p now inputs sender receiver amount =
    let tx = draft_transaction p now inputs sender receiver amount in
    elim (Bool-cases (verify_content p tx)) [
      | inl fits ↦ inl (tx, ground arith, fits, refl, refl, ground arith)
      | inr bad ↦ inr (ground arith)
    ]

abbrev pub payment : Primitives → Str → ℕ → Utxo
payment p receiver amount = record {
  tx_id = [];
  index = pos 0;
  amount = pos amount;
  address = key_to_addr p receiver;
}

abbrev pub leftover : Primitives → List Utxo → Str → ℕ → Utxo
leftover p inputs sender amount = record {
  tx_id = [];
  index = pos 1;
  amount = pos (value inputs - amount);
  address = key_to_addr p sender;
}

-- What a new transaction does: it spends the inputs, pays the amount to the receiver, and returns what
-- is left, if anything, to the sender in a second output.
pub record IsPayment (p : Primitives) (inputs : List Utxo) (sender receiver : Str) (amount : ℕ)
    (tx : Transaction) : Type 0 where
  pub inputs_spent : tx.content.input_utxos ≡ inputs
  pub value_kept : value tx.content.output_utxos ≡ value inputs
  pub outputs_made : tx.content.output_utxos ≡ (
      if ltb amount (value inputs)
      then payment p receiver amount ∷ leftover p inputs sender amount ∷ []
      else payment p receiver amount ∷ [])

module _ (p : Primitives) (now : ℤ) (inputs : List Utxo) (sender receiver : Str) (amount : ℕ)
    (spendable : All (IsSpendable (key_to_addr p sender)) inputs)
    (small : value inputs < int64_half) (positive : 0 < amount)
    (covered : amount ≤ value inputs) where
  new_outputs-eq : new_outputs p inputs sender receiver (pos amount) ≡ (
      if ltb amount (value inputs)
      then payment p receiver amount ∷ leftover p inputs sender amount ∷ []
      else payment p receiver amount ∷ [])
  unfolding new_outputs
  new_outputs-eq =
      rw
        (
          sum_amounts-value 0 (key_to_addr p sender) inputs spendable (omega arith),
          wrap64-sub_small (0 + value inputs) amount (omega arith) (omega arith),
        )
        (ground arith)

  outputs_total :
      verify_outputs 0 (pos 0) (new_outputs p inputs sender receiver (pos amount))
      ≡ some (pos (value inputs))
  unfolding verify_outputs ℤ-discrete Str-discrete
  outputs_total = rw new_outputs-eq (
      ground (
        arith,
        wrap64-add_small 0 (pos amount) positive,
        wrap64-add_small amount (pos (value inputs - amount)),
      ))

  draft-IsVerified : IsVerified p (draft_transaction p now inputs sender receiver (pos amount))
  unfolding draft_transaction
  draft-IsVerified =
      let (total, owned) =
        verify_inputs-spendable 0 (key_to_addr p sender) inputs spendable (omega arith) in
      record {
        total = pos (value inputs);
        at_most_two = rw new_outputs-eq (ground arith);
        inputs_total = total ∙ ap (λ k. some (pos k)) (omega arith);
        outputs_total = outputs_total;
        inputs_owned = owned;
        leftover_owned = rw new_outputs-eq (unfold leftover_from in ground arith);
      }

  -- From spendable inputs of the sender that are worth less than 2 ^ 63 and cover a positive
  -- amount, `NewTransaction` succeeds: it spends just these inputs, pays the amount to the receiver
  -- and returns what is left, if anything, to the sender in a second output.
  pub new_transaction_succeeds :
      (tx : Transaction) × (new_transaction p now inputs sender receiver (pos amount) ≡ ok tx)
      × IsPayment p inputs sender receiver amount tx
  unfolding new_transaction
  new_transaction_succeeds =
      let tx = draft_transaction p now inputs sender receiver (pos amount) in
      let fits = IsVerified-verify_content p tx draft-IsVerified in
      (
        tx,
        unfold draft_transaction in rw fits,
        record {
          inputs_spent = refl;
          value_kept = rw new_outputs-eq (unfold value in ground arith);
          outputs_made = new_outputs-eq;
        },
      )
