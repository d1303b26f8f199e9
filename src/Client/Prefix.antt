-- ===== src/Client/Prefix.antt =====
-- The beginning of a list of UTXOs.
use nakamato_blockchain.Base.{
  ◌+◌, ◌≤◌, ◌≡◌, ◌≢◌, refl, sym, ap, List, [], ◌∷◌, ◌++◌, arith, All, ◌∙◌,
}
use nakamato_blockchain.Base.Text.{Str, Str-discrete}
use nakamato_blockchain.Types.{Utxo, Utxo-discrete}
use nakamato_blockchain.Transaction.Value.{value}
use nakamato_blockchain.Transaction.Create.{IsSpendable}
use nakamato_blockchain.UtxoSet.{UtxoSet, get}
use nakamato_blockchain.UtxoSet.Counting.{occurrences, occurrences-append, count}

pub All-prefix {ℓ κ} : {A : Type ℓ} (P : A → Type κ) (xs ys : List A) → All P (xs ++ ys) → All P xs
All-prefix P [] ys h = tt
All-prefix P (x ∷ xs) ys h = (h.0, All-prefix P xs ys h.1)

pub value-prefix : (xs ys : List Utxo) → value xs ≤ value (xs ++ ys)
unfolding value
value-prefix [] ys = omega arith
value-prefix (x ∷ xs) ys = omega (arith, value-prefix xs ys)

occurrences-elsewhere :
    (a : Str) (y : Utxo) (xs : List Utxo)
    → All (IsSpendable a) xs
    → y.address ≢ a
    → occurrences y xs ≡ 0
unfolding occurrences
occurrences-elsewhere a y [] h n = refl
occurrences-elsewhere a y (x ∷ xs) h n = elim (Utxo-discrete x y) [
  | yes same ↦ absurd (n (ap (λ (z : Utxo). z.address) (sym same) ∙ h.0.2))
  | no other ↦ ground (arith, occurrences-elsewhere a y xs h.1 n)
]

-- What a set holds at an address covers any beginning of it.
pub occurrences-prefix :
    (u : UtxoSet) (a : Str) (xs ys : List Utxo) (y : Utxo)
    → get u a ≡ xs ++ ys
    → All (IsSpendable a) xs
    → occurrences y xs ≤ count y u
occurrences-prefix u a xs ys y e h = elim (Str-discrete y.address a) [
  | yes same ↦
      let here : count y u ≡ occurrences y xs + occurrences y ys =
        unfold count in
        ap (λ b. occurrences y (get u b)) same
        ∙ ap (occurrences y) e
        ∙ occurrences-append y xs ys in
      omega (arith, here)
  | no other ↦ omega (arith, occurrences-elsewhere a y xs h other)
]
