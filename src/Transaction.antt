-- ===== src/Transaction.antt =====
-- internal/blockchain/transaction.go. `time.Now` and the random source are arguments.
pub mod Value
pub mod Create
pub mod Forgery
use nakamato_blockchain.Base.{
  ℕ, zero, suc, ◌+◌, Bool, true, false, not, ◌&&◌, ◌||◌, Option, none, some, List, [], ◌∷◌, ltb,
  length, get_elem?, if◌then◌else◌,
}
use nakamato_blockchain.Base.Int.{ℤ, pos, negsuc, ◌+ℤ◌, ◌-ℤ◌, ltb_ℤ, leb_ℤ, eq_ℤ, wrap64}
use nakamato_blockchain.Base.Text.{Str, str_eq}
use nakamato_blockchain.Types.{
  Utxo, TransactionContent, Transaction, Error, content_verification_failed, invalid_utxo_index,
  Result, ok, err, panic, ◌>>=◌,
}
use nakamato_blockchain.Crypto
use nakamato_blockchain.Crypto.{Primitives, transaction, hash_of, key_to_addr}

-- `for _, utxo := range utxos { total += utxo.Amount }`
unfoldable pub sum_amounts : ℤ → List Utxo → ℤ
sum_amounts total [] = total
sum_amounts total (u ∷ us) = sum_amounts (wrap64 (total +ℤ u.amount)) us

-- The loop over the inputs; none is `return false`.
unfoldable pub verify_inputs : ℤ → List Utxo → Option ℤ
verify_inputs total [] = some total
verify_inputs total (u ∷ us) =
    let rest = verify_inputs (wrap64 (total +ℤ u.amount)) us in
    if leb_ℤ u.amount (pos 0) || str_eq u.tx_id [] then none else rest

-- The loop over the outputs, from index i.
unfoldable pub verify_outputs : ℕ → ℤ → List Utxo → Option ℤ
verify_outputs i total [] = some total
verify_outputs i total (u ∷ us) =
    let rest = verify_outputs (suc i) (wrap64 (total +ℤ u.amount)) us in
    if leb_ℤ u.amount (pos 0) || not (str_eq u.tx_id []) || not (eq_ℤ u.index (pos i))
    then none
    else rest

-- Every input belongs to the address.
unfoldable pub all_from : Str → List Utxo → Bool
all_from address [] = true
all_from address (u ∷ us) =
    let rest = all_from address us in if str_eq u.address address then rest else false

-- `len(outputs) > 1 && outputs[1].Address != sender`, negated.
unfoldable pub leftover_from : Str → List Utxo → Bool
leftover_from address (_ ∷ u ∷ _) = str_eq u.address address
leftover_from address _ = true

abbrev totals_match : Option ℤ → Option ℤ → Bool
totals_match none _ = false
totals_match (some a) none = false
totals_match (some a) (some b) = eq_ℤ a b

unfoldable pub get_utxo : Transaction → ℤ → Result Utxo
get_utxo tx (negsuc _) = err invalid_utxo_index
get_utxo tx (pos i) = elim (get_elem? tx.content.output_utxos i) [
  | none ↦ err invalid_utxo_index
  | some out ↦ ok (record out { tx_id = tx.hash })
]

module _ (p : Primitives) where
  unfoldable pub verify_content : Transaction → Bool
  verify_content tx =
      let inputs = tx.content.input_utxos in
      let outputs = tx.content.output_utxos in
      let sender_address = key_to_addr p tx.content.sender_pub_key in
      if ltb 2 (length outputs)
      then false
      else if totals_match (verify_inputs (pos 0) inputs) (verify_outputs 0 (pos 0) outputs)
      then (if all_from sender_address inputs then leftover_from sender_address outputs else false)
      else false

  -- The outputs of a new transaction: the payment, and what is left to the sender.
  unfoldable pub new_outputs : List Utxo → Str → Str → ℤ → List Utxo
  new_outputs input_utxos sender_pub_key receiver_public_key amount =
      let leftover_amount = wrap64 (sum_amounts (pos 0) input_utxos -ℤ amount) in
      let payment : Utxo = record {
        tx_id = [];
        index = pos 0;
        amount = amount;
        address = key_to_addr p receiver_public_key;
      } in
      let leftover : Utxo = record {
        tx_id = [];
        index = pos 1;
        amount = leftover_amount;
        address = key_to_addr p sender_pub_key;
      } in
      if ltb_ℤ (pos 0) leftover_amount then payment ∷ leftover ∷ [] else payment ∷ []

  -- The transaction before its content is verified.
  unfoldable pub draft_transaction : ℤ → List Utxo → Str → Str → ℤ → Transaction
  draft_transaction now input_utxos sender_pub_key receiver_public_key amount = record {
    content = record {
      input_utxos = input_utxos;
      output_utxos = new_outputs input_utxos sender_pub_key receiver_public_key amount;
      sender_pub_key = sender_pub_key;
      timestamp = now;
    };
    signature = [];
    hash = [];
  }

  unfoldable pub new_transaction : ℤ → List Utxo → Str → Str → ℤ → Result Transaction
  unfolding draft_transaction
  new_transaction now input_utxos sender_pub_key receiver_public_key amount =
      let tx = draft_transaction now input_utxos sender_pub_key receiver_public_key amount in
      if verify_content tx then ok tx else err content_verification_failed

  abbrev set_signature : Transaction → Str → Result Str → Result (Unit {0}) × Transaction
  set_signature tx tx_hash (ok s) = (ok tt, record tx { signature = s; hash = tx_hash })
  set_signature tx tx_hash (err e) = (err e, record tx { signature = [] })
  set_signature tx tx_hash panic = (panic, tx)

  abbrev sign_hash : ℕ → Transaction → Str → Result Str → Result (Unit {0}) × Transaction
  sign_hash random tx private_key (ok tx_hash) =
      set_signature tx tx_hash (Crypto.sign p random tx_hash private_key)
  sign_hash random tx private_key (err e) = (err e, tx)
  sign_hash random tx private_key panic = (panic, tx)

  -- The hash is taken of the transaction as it stands, its old signature and hash included. The
  -- signature is assigned also when signing fails.
  unfoldable pub sign : ℕ → Transaction → Str → Result (Unit {0}) × Transaction
  sign random tx private_key = sign_hash random tx private_key (hash_of p (transaction tx))

  abbrev accepted : Result Bool → Bool
  accepted (ok valid) = valid
  accepted (err _) = false
  accepted panic = false

  unfoldable pub verify_signature : Transaction → Bool
  verify_signature tx =
      accepted (Crypto.verify_signature p tx.hash tx.signature tx.content.sender_pub_key)

  unfoldable pub verify : Transaction → Bool
  verify tx = verify_content tx && verify_signature tx
