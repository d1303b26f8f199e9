-- ===== src/Client/Balances.antt =====
-- Whose money a payment moves.
use nakamato_blockchain.Base.{
  ℕ, ◌+◌, ◌<◌, ◌≡◌, ◌++◌, ◌∙◌, sym, ap, subst, List, [], ◌∷◌, All, arith, ltb, if◌then◌else◌,
}
use nakamato_blockchain.Base.Text.{Str, str_eq}
use nakamato_blockchain.Types.{Utxo, Transaction, ok, returned, failed, panicked, outcome}
use nakamato_blockchain.Crypto.{Primitives, key_to_addr, hash_of, transaction}
use nakamato_blockchain.Crypto
use nakamato_blockchain.Base.Int.{ℤ, pos, int64_half}
use nakamato_blockchain.Transaction
use nakamato_blockchain.Transaction.Value.{value}
use nakamato_blockchain.Transaction.Create.{
  IsSpendable, IsPayment, payment, leftover, new_transaction_succeeds,
}
use nakamato_blockchain.UtxoSet
use nakamato_blockchain.UtxoSet.{UtxoSet, get}
use nakamato_blockchain.UtxoSet.Worth.{worth, value_at, add_transaction-worth}
use nakamato_blockchain.Client.{create_for, signed}
use nakamato_blockchain.Client.Created.{IsCreated, create_for-funds}
use nakamato_blockchain.Client.Prefix.{All-prefix, value-prefix}
use nakamato_blockchain.UtxoSet.Selection.{get_utxos_selects}

value_at-spendable :
    (owner a : Str) (xs : List Utxo)
    → All (IsSpendable owner) xs
    → value_at a xs ≡ (if str_eq a owner then value xs else 0)
unfolding value_at value
value_at-spendable owner a [] h = ground arith
value_at-spendable owner a (x ∷ xs) (h, hs) = ground (arith, h.2, value_at-spendable owner a xs hs)

-- What the sender has put in comes out again, but for the amount, which the receiver has.
IsPayment-moves :
    (p : Primitives) (inputs : List Utxo) (sender receiver : Str) (amount : ℕ) (tx : Transaction)
    (a : Str)
    → IsPayment p inputs sender receiver amount tx
    → All (IsSpendable (key_to_addr p sender)) inputs
    → value_at a tx.content.output_utxos + (if str_eq a (key_to_addr p sender) then amount else 0)
      ≡ value_at a tx.content.input_utxos
        + (if str_eq a (key_to_addr p receiver) then amount else 0)
unfolding value_at value
IsPayment-moves p inputs sender receiver amount tx a pays owned =
    let spent = value_at-spendable (key_to_addr p sender) a inputs owned in
    let total : value (
          if ltb amount (value inputs)
          then payment p receiver amount ∷ leftover p inputs sender amount ∷ []
          else payment p receiver amount ∷ [])
        ≡ value inputs =
      subst (λ us. value us ≡ value inputs) pays.outputs_made pays.value_kept in
    rw (pays.inputs_spent, pays.outputs_made) (ground (arith, spent, total))

-- What such a payment does to the worth of an address.
IsPayment-worth :
    (p : Primitives) (u v : UtxoSet) (inputs rest : List Utxo) (sender receiver : Str) (amount : ℕ)
    (tx : Transaction) (a : Str)
    → get u (key_to_addr p sender) ≡ inputs ++ rest
    → IsPayment p inputs sender receiver amount tx
    → All (IsSpendable (key_to_addr p sender)) (get u (key_to_addr p sender))
    → (UtxoSet.add_transaction p v tx).0 ≡ ok tt
    → worth (UtxoSet.add_transaction p v tx).1 a
        + (if str_eq a (key_to_addr p sender) then amount else 0)
      ≡ worth v a + (if str_eq a (key_to_addr p receiver) then amount else 0)
IsPayment-worth p u v inputs rest sender receiver amount tx a selected pays spendable added =
    let owned : All (IsSpendable (key_to_addr p sender)) inputs =
      All-prefix (IsSpendable (key_to_addr p sender)) inputs rest
        (subst (All (IsSpendable (key_to_addr p sender))) selected spendable) in
    omega (
      arith,
      add_transaction-worth p v tx a added,
      IsPayment-moves p inputs sender receiver amount tx a pays owned,
    )

pub IsCreated-worth :
    (p : Primitives) (u v : UtxoSet) (sender receiver : Str) (amount : ℕ) (tx : Transaction)
    (a : Str)
    → IsCreated p u sender receiver amount tx
    → All (IsSpendable (key_to_addr p sender)) (get u (key_to_addr p sender))
    → (UtxoSet.add_transaction p v tx).0 ≡ ok tt
    → worth (UtxoSet.add_transaction p v tx).1 a
        + (if str_eq a (key_to_addr p sender) then amount else 0)
      ≡ worth v a + (if str_eq a (key_to_addr p receiver) then amount else 0)
IsCreated-worth p u v sender receiver amount tx a made =
    IsPayment-worth p u v made.inputs made.rest sender receiver amount tx a made.selected made.pays

signed-content :
    (p : Primitives) (random : ℕ) (draft tx : Transaction) (key : Str)
    → signed (Transaction.sign p random draft key) ≡ ok tx
    → draft.content ≡ tx.content
unfolding Transaction.sign
signed-content p random draft tx key h = elim (outcome (hash_of p (transaction draft))) [
  | failed r e ↦ absurd (ground (arith, h, e))
  | panicked e ↦ absurd (ground (arith, h, e))
  | returned hash e ↦ elim (outcome (Crypto.sign p random hash key)) [
    | failed r f ↦ absurd (ground (arith, h, e, f))
    | panicked f ↦ absurd (ground (arith, h, e, f))
    | returned signature f ↦ ground (arith, h, e, f)
  ]
]

module _ (p : Primitives) (now : ℤ) (random : ℕ) (u v : UtxoSet) (sender private_str receiver : Str)
    (amount : ℕ) (tx : Transaction) (a : Str)
    (made : create_for p now random u sender private_str receiver (pos amount) ≡ ok tx)
    (spendable : All (IsSpendable (key_to_addr p sender)) (get u (key_to_addr p sender)))
    (small : value (get u (key_to_addr p sender)) < int64_half) (positive : 0 < amount)
    (added : (UtxoSet.add_transaction p v tx).0 ≡ ok tt) where
  -- Where a client creates a transaction for a positive amount, from UTXOs at the sender's address
  -- that are spendable and worth less than 2 ^ 63 together, it does this to every UTXO set that
  -- takes it: what stands at the sender's address is worth the amount less, what stands at the
  -- receiver's the amount more, and any other address is worth what it was.
  pub created-worth :
      worth (UtxoSet.add_transaction p v tx).1 a
        + (if str_eq a (key_to_addr p sender) then amount else 0)
      ≡ worth v a + (if str_eq a (key_to_addr p receiver) then amount else 0)
  created-worth =
      let address = key_to_addr p sender in
      let enough =
        create_for-funds p now random u sender private_str receiver amount tx spendable small
          made in
      let (chosen, selects, sel) = get_utxos_selects u address amount spendable small enough in
      let owned : All (IsSpendable address) chosen =
        All-prefix (IsSpendable address) chosen sel.rest
          (subst (All (IsSpendable address)) sel.is_prefix spendable) in
      let less : value chosen < int64_half =
        omega (arith, value-prefix chosen sel.rest, ap value sel.is_prefix, small) in
      let (draft, drafted, pays) =
        new_transaction_succeeds p now chosen sender receiver amount owned less positive
          (omega (arith, sel.covers)) in
      let signs : signed (Transaction.sign p random draft private_str) ≡ ok tx =
        unfold create_for in ground (arith, made, selects, drafted) in
      let same = signed-content p random draft tx private_str signs in
      IsPayment-worth p u v chosen sel.rest sender receiver amount tx a sel.is_prefix
        (record {
          inputs_spent = ap (λ c. c.input_utxos) (sym same) ∙ pays.inputs_spent;
          value_kept = ap (λ c. value c.output_utxos) (sym same) ∙ pays.value_kept;
          outputs_made = ap (λ c. c.output_utxos) (sym same) ∙ pays.outputs_made;
        })
        spendable added
