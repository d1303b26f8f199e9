-- ===== src/Transaction/Value.antt =====
-- What a transaction takes in and pays out, as unbounded numbers, against the wrapped int64 sums that
-- `VerifyContent` compares.
use nakamato_blockchain.Base.{
  ℕ, suc, ◌+◌, ◌%◌, ◌≤◌, ◌<◌, ◌≡◌, sym, ap, subst, true, false, some, inl, inr, List, [], ◌∷◌,
  arith, length, All, ◌∙◌, Option-cases,
}
use nakamato_blockchain.Base.Int.{
  ℤ, pos, negsuc, ◌+ℤ◌, pos_part, leb_ℤ, wrap64, IsInt64, wrap64-add_pos, wrap64-pos_injective,
  int64_modulus, wrap64_id,
}
use nakamato_blockchain.Types.{Utxo, Transaction}
use nakamato_blockchain.Crypto.{Primitives, key_to_addr}
use nakamato_blockchain.Transaction.{
  verify_inputs, verify_outputs, verify_content, all_from, leftover_from,
}

-- The sum of the amounts, with no wrap-around; a negative amount counts as nothing.
unfoldable pub value : List Utxo → ℕ
value [] = 0
value (u ∷ us) = pos_part u.amount + value us

abbrev pub IsPositive : Utxo → Type 0
IsPositive u = 0 < pos_part u.amount

positive_amount : (a : ℤ) → leb_ℤ a (pos 0) ≡ false → (a ≡ pos (pos_part a)) × (0 < pos_part a)
positive_amount a h = ground arith

wrap64-step :
    (n : ℕ) (a : ℤ)
    → leb_ℤ a (pos 0) ≡ false
    → wrap64 (wrap64 (pos n) +ℤ a) ≡ wrap64 (pos (n + pos_part a))
wrap64-step n (pos m) h = wrap64-add_pos n m
wrap64-step n (negsuc m) h = ground arith

-- The inputs that pass are positive, and their total is the wrapped sum.
pub verify_inputs-value :
    (n : ℕ) (us : List Utxo) {t : ℤ}
    → verify_inputs (wrap64 (pos n)) us ≡ some t
    → All IsPositive us × (t ≡ wrap64 (pos (n + value us)))
unfolding verify_inputs value
verify_inputs-value n [] h = (tt, ground arith)
verify_inputs-value n (u ∷ us) {t} h =
    let big : leb_ℤ u.amount (pos 0) ≡ false = ground arith in
    let next : verify_inputs (wrap64 (pos (n + pos_part u.amount))) us ≡ some t =
      rw (← wrap64-step n u.amount big) (ground arith) in
    let (ps, e) = verify_inputs-value (n + pos_part u.amount) us next in
    (((positive_amount u.amount big).1, ps), e ∙ ap (λ k. wrap64 (pos k)) (omega arith))

-- So are the outputs.
pub verify_outputs-value :
    (i n : ℕ) (us : List Utxo) {t : ℤ}
    → verify_outputs i (wrap64 (pos n)) us ≡ some t
    → All IsPositive us × (t ≡ wrap64 (pos (n + value us)))
unfolding verify_outputs value
verify_outputs-value i n [] h = (tt, ground arith)
verify_outputs-value i n (u ∷ us) {t} h =
    let big : leb_ℤ u.amount (pos 0) ≡ false = ground arith in
    let next : verify_outputs (suc i) (wrap64 (pos (n + pos_part u.amount))) us ≡ some t =
      rw (← wrap64-step n u.amount big) (ground arith) in
    let (ps, e) = verify_outputs-value (suc i) (n + pos_part u.amount) us next in
    (((positive_amount u.amount big).1, ps), e ∙ ap (λ k. wrap64 (pos k)) (omega arith))

module _ (p : Primitives) (tx : Transaction) where
  -- What `VerifyContent` has checked when it returns true.
  pub record IsVerified : Type 0 where
    pub total : ℤ
    pub at_most_two : length tx.content.output_utxos ≤ 2
    pub inputs_total : verify_inputs (pos 0) tx.content.input_utxos ≡ some total
    pub outputs_total : verify_outputs 0 (pos 0) tx.content.output_utxos ≡ some total
    pub inputs_owned :
        all_from (key_to_addr p tx.content.sender_pub_key) tx.content.input_utxos ≡ true
    pub leftover_owned :
        leftover_from (key_to_addr p tx.content.sender_pub_key) tx.content.output_utxos ≡ true

  pub verify_content-IsVerified : verify_content p tx ≡ true → IsVerified
  unfolding verify_content
  verify_content-IsVerified h = elim (Option-cases (verify_inputs (pos 0) tx.content.input_utxos)) [
    | inl none_in ↦ ground arith
    | inr (a, e) ↦ elim (Option-cases (verify_outputs 0 (pos 0) tx.content.output_utxos)) [
      | inl none_out ↦ ground arith
      | inr (b, f) ↦ record {
        total = a;
        at_most_two = ground arith;
        inputs_total = e;
        outputs_total = ground arith;
        inputs_owned = ground arith;
        leftover_owned = ground arith;
      }
    ]
  ]

  pub IsVerified-verify_content : IsVerified → verify_content p tx ≡ true
  unfolding verify_content
  IsVerified-verify_content v = ground arith

abbrev pub HasInt64Amount : Utxo → Type 0
HasInt64Amount u = IsInt64 u.amount

value-lt-modulus :
    (us : List Utxo) → length us ≤ 2 → All HasInt64Amount us → value us < int64_modulus
unfolding value
value-lt-modulus [] h a = omega arith
value-lt-modulus (u ∷ []) h a = omega arith
value-lt-modulus (u ∷ v ∷ []) h a = omega arith
value-lt-modulus (u ∷ v ∷ w ∷ us) h a = absurd (omega arith)

pub IsVerified-values :
    (p : Primitives) (tx : Transaction)
    → IsVerified p tx
    → All IsPositive tx.content.input_utxos
      × All IsPositive tx.content.output_utxos
      × (value tx.content.input_utxos % int64_modulus
          ≡ value tx.content.output_utxos % int64_modulus)
IsVerified-values p tx v =
    let zero_total : pos 0 ≡ wrap64 (pos 0) = sym (wrap64_id (pos 0) (omega arith)) in
    let (pi, ei) = verify_inputs-value 0 tx.content.input_utxos (
      subst (λ z. verify_inputs z tx.content.input_utxos ≡ some v.total) zero_total
        v.inputs_total) in
    let (po, eo) = verify_outputs-value 0 0 tx.content.output_utxos (
      subst (λ z. verify_outputs 0 z tx.content.output_utxos ≡ some v.total) zero_total
        v.outputs_total) in
    (
      pi,
      po,
      omega (
        arith,
        wrap64-pos_injective (0 + value tx.content.input_utxos) (0 + value tx.content.output_utxos)
            (sym ei ∙ eo),
      ),
    )

-- A transaction that `VerifyContent` accepts and whose output amounts are int64 values pays out no
-- more than it takes in, as unbounded sums: the wrap-around of the int64 totals makes no money.
pub verify_content_conserves :
    (p : Primitives) (tx : Transaction)
    → verify_content p tx ≡ true
    → All HasInt64Amount tx.content.output_utxos
    → value tx.content.output_utxos ≤ value tx.content.input_utxos
verify_content_conserves p tx h small =
    let v = verify_content-IsVerified p tx h in
    let (_, _, e) = IsVerified-values p tx v in
    let bound = value-lt-modulus tx.content.output_utxos v.at_most_two small in omega arith

-- Where moreover the inputs are worth less than 2 ^ 64, it pays out exactly what it takes in.
pub verify_content_balances :
    (p : Primitives) (tx : Transaction)
    → verify_content p tx ≡ true
    → All HasInt64Amount tx.content.output_utxos
    → value tx.content.input_utxos < int64_modulus
    → value tx.content.output_utxos ≡ value tx.content.input_utxos
verify_content_balances p tx h small lt =
    let v = verify_content-IsVerified p tx h in
    let (_, _, e) = IsVerified-values p tx v in
    let bound = value-lt-modulus tx.content.output_utxos v.at_most_two small in omega arith
