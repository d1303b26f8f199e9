-- ===== src/UtxoSet/Supply.antt =====
-- The money in the set, as an unbounded sum over all addresses.
use nakamato_blockchain.Base.{
  ℕ, suc, ◌+◌, ◌≤◌, ◌<◌, ◌≡◌, ◌≢◌, refl, true, inl, inr, List, [], ◌∷◌, ◌++◌, arith, Bool-cases,
  drop, drop-eq-cons, All, and-eq-true,
}
use nakamato_blockchain.Base.Int.{pos, pos_part, int64_modulus}
use nakamato_blockchain.Base.Text.{Str}
use nakamato_blockchain.Base.Dict.{Dict, lookup, insert}
use nakamato_blockchain.Types.{Utxo, Transaction, Result, returned, failed, panicked, outcome, ok}
use nakamato_blockchain.Crypto.{Primitives}
use nakamato_blockchain.Transaction
use nakamato_blockchain.Transaction.{get_utxo}
use nakamato_blockchain.Transaction.Value.{
  value, verify_content_conserves, verify_content_balances, HasInt64Amount,
}
use nakamato_blockchain.UtxoSet.{
  UtxoSet, or_empty, get, any_equal, check_utxo, remove_first, add_utxo, remove_utxo, for_each,
  add_outputs, add_transaction,
}
use nakamato_blockchain.UtxoSet.Counting.{for_each-cons, for_each-cons_ok}
use nakamato_blockchain.UtxoSet.Spending.{add_transaction_ok, add_transaction_succeeds}

abbrev entries_value : Dict (List Utxo) → ℕ
entries_value [] = 0
entries_value ((_, us) ∷ d) = value us + entries_value d

unfoldable pub supply : UtxoSet → ℕ
supply u = entries_value u.utxos

entries_value-insert :
    (k : Str) (us : List Utxo) (d : Dict (List Utxo))
    → entries_value (insert k us d) + value (or_empty (lookup k d)) ≡ entries_value d + value us
unfolding lookup insert value
entries_value-insert k us [] = omega arith
entries_value-insert k us ((j, vs) ∷ d) = ground (arith, entries_value-insert k us d)

pub value-append : (xs ys : List Utxo) → value (xs ++ ys) ≡ value xs + value ys
unfolding value
value-append [] ys = omega arith
value-append (x ∷ xs) ys = omega (arith, value-append xs ys)

pub value-remove_first :
    (x : Utxo) (ys : List Utxo)
    → any_equal x ys ≡ true
    → value (remove_first x ys) + pos_part x.amount ≡ value ys
unfolding value any_equal remove_first
value-remove_first x [] h = cc
value-remove_first x (y ∷ ys) h = ground (arith, value-remove_first x ys)

pub supply-add_utxo :
    (u : UtxoSet) (x : Utxo) → supply (add_utxo u x) ≡ supply u + pos_part x.amount
unfolding supply add_utxo get value
supply-add_utxo u x = omega (
  arith,
  entries_value-insert x.address (get u x.address ++ x ∷ []) u.utxos,
  value-append (get u x.address) (x ∷ []),
)

pub supply-remove_utxo :
    (u : UtxoSet) (x : Utxo)
    → (remove_utxo u x).0 ≡ ok tt
    → supply (remove_utxo u x).1 + pos_part x.amount ≡ supply u
unfolding supply remove_utxo check_utxo get
supply-remove_utxo u x h =
    let found : any_equal x (get u x.address) ≡ true = ground arith in
    rw (found, remove_utxo)
      (omega (
        arith,
        entries_value-insert x.address (remove_first x (get u x.address)) u.utxos,
        value-remove_first x (get u x.address) found,
      ))

supply-remove_inputs :
    (xs : List Utxo) (u : UtxoSet)
    → (for_each remove_utxo u xs).0 ≡ ok tt
    → supply (for_each remove_utxo u xs).1 + value xs ≡ supply u
unfolding value
supply-remove_inputs [] u h = unfold for_each in omega arith
supply-remove_inputs (x ∷ xs) u h =
    let done = for_each-cons_ok remove_utxo u x xs h in
    let step = for_each-cons remove_utxo u x xs done in
    rw step (
      omega (
        arith,
        supply-remove_utxo u x done,
        supply-remove_inputs xs (remove_utxo u x).1 (rw step at h),
      ))

supply-add_outputs :
    (tx : Transaction) (i : ℕ) (rest : List Utxo) (u : UtxoSet)
    → drop i tx.content.output_utxos ≡ rest
    → supply (add_outputs tx i rest u) ≡ supply u + value rest
unfolding add_outputs value
supply-add_outputs tx i [] u h = omega arith
supply-add_outputs tx i (x ∷ rest) u h =
    let (here, next) = drop-eq-cons i tx.content.output_utxos x rest h in
    let e : get_utxo tx (pos i) ≡ ok (record x { tx_id = tx.hash }) =
      unfold get_utxo in ground arith in
    let stamp : Utxo = record x { tx_id = tx.hash } in
    rw e (
      omega (
        arith,
        supply-add_outputs tx (suc i) rest (add_utxo u stamp) next,
        supply-add_utxo u stamp,
      ))

-- A transaction that is added takes the value of its inputs out of the set and puts that of its
-- outputs in.
supply-add_transaction :
    (p : Primitives) (u : UtxoSet) (tx : Transaction)
    → (add_transaction p u tx).0 ≡ ok tt
    → supply (add_transaction p u tx).1 + value tx.content.input_utxos
      ≡ supply u + value tx.content.output_utxos
supply-add_transaction p u tx h =
    let (_, removes, e) = add_transaction_ok p u tx h in
    rw e (
      omega (
        arith,
        supply-add_outputs tx 0 tx.content.output_utxos
            (for_each remove_utxo u tx.content.input_utxos).1 refl,
        supply-remove_inputs tx.content.input_utxos u removes,
      ))

content-verified :
    (p : Primitives) (tx : Transaction)
    → Transaction.verify p tx ≡ true
    → Transaction.verify_content p tx ≡ true
unfolding Transaction.verify
content-verified p tx h =
    (and-eq-true (Transaction.verify_content p tx) (Transaction.verify_signature p tx) h).0

-- After a transaction is added the set is worth no more than before.
pub supply-add_transaction_le :
    (p : Primitives) (u : UtxoSet) (tx : Transaction)
    → (add_transaction p u tx).0 ≡ ok tt
    → All HasInt64Amount tx.content.output_utxos
    → supply (add_transaction p u tx).1 ≤ supply u
supply-add_transaction_le p u tx h small =
    let (verified, _) = (add_transaction_succeeds p u tx).0 h in
    omega (
      arith,
      verify_content_conserves p tx (content-verified p tx verified) small,
      supply-add_transaction p u tx h,
    )

-- When `UTXOSet.AddTransaction` succeeds on a transaction whose inputs are worth less than 2 ^ 64
-- and whose output amounts are int64 values, the set is worth what it was worth before.
pub supply-add_transaction_eq :
    (p : Primitives) (u : UtxoSet) (tx : Transaction)
    → (add_transaction p u tx).0 ≡ ok tt
    → All HasInt64Amount tx.content.output_utxos
    → value tx.content.input_utxos < int64_modulus
    → supply (add_transaction p u tx).1 ≡ supply u
supply-add_transaction_eq p u tx h small lt =
    let (verified, _) = (add_transaction_succeeds p u tx).0 h in
    omega (
      arith,
      verify_content_balances p tx (content-verified p tx verified) small lt,
      supply-add_transaction p u tx h,
    )

-- A loop whose rounds never raise the supply does not raise it, however it ends.
pub for_each-supply {ℓ} :
    {A : Type ℓ} (f : UtxoSet → A → Result (Unit {0}) × UtxoSet) (P : A → Type 0)
    → ((u : UtxoSet) (x : A) → P x → supply (f u x).1 ≤ supply u)
    → (xs : List A) (u : UtxoSet) → All P xs
    → supply (for_each f u xs).1 ≤ supply u
for_each-supply f P step [] u h = unfold for_each in omega arith
for_each-supply f P step (x ∷ xs) u h = elim (outcome (f u x).0) [
  | returned _ e ↦
      rw (for_each-cons f u x xs e)
        (omega (arith, step u x h.0, for_each-supply f P step xs (f u x).1 h.1))
  | failed r e ↦ unfold for_each in rw (e, for_each) (step u x h.0)
  | panicked e ↦ unfold for_each in rw (e, for_each) (step u x h.0)
]

supply-remove_utxo_le : (u : UtxoSet) (x : Utxo) → supply (remove_utxo u x).1 ≤ supply u
supply-remove_utxo_le u x = elim (Bool-cases (check_utxo u x)) [
  | inl found ↦
      let done : (remove_utxo u x).0 ≡ ok tt = unfold remove_utxo in rw found in
      omega (arith, supply-remove_utxo u x done)
  | inr missing ↦ unfold remove_utxo in rw missing (omega arith)
]

trivial : (xs : List Utxo) → All (λ _. Unit {0}) xs
trivial [] = tt
trivial (x ∷ xs) = (tt, trivial xs)

-- However `AddTransaction` ends, the supply has not grown.
pub add_transaction-supply :
    (p : Primitives) (u : UtxoSet) (tx : Transaction)
    → All HasInt64Amount tx.content.output_utxos
    → supply (add_transaction p u tx).1 ≤ supply u
add_transaction-supply p u tx small = elim (outcome (add_transaction p u tx).0) [
  | returned _ h ↦ supply-add_transaction_le p u tx h small
  | failed r h ↦ stopped (λ k. cc (k, h))
  | panicked h ↦ stopped (λ k. cc (k, h))
]
  where
    removes : supply (for_each remove_utxo u tx.content.input_utxos).1 ≤ supply u
    removes =
        for_each-supply remove_utxo (λ _. Unit {0}) (λ v x _. supply-remove_utxo_le v x)
          tx.content.input_utxos u (trivial tx.content.input_utxos)

    stopped : (add_transaction p u tx).0 ≢ ok tt → supply (add_transaction p u tx).1 ≤ supply u
    stopped n = unfold add_transaction in ground (arith, removes, n)
