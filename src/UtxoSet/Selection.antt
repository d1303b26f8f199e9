-- ===== src/UtxoSet/Selection.antt =====
-- `GetUTXOs`: which UTXOs of an address are chosen to cover an amount.
use nakamato_blockchain.Base.{
  ℕ, ◌+◌, ◌≤◌, ◌<◌, ◌≡◌, ◌≢◌, refl, ap, List, [], ◌∷◌, ◌++◌, arith, ◌∙◌, All, dec_lt,
}
use nakamato_blockchain.Base.Int.{pos, pos_part, int64_half}
use nakamato_blockchain.Base.Text.{Str}
use nakamato_blockchain.Types.{Utxo, ok, err, not_enough_funds}
use nakamato_blockchain.Transaction.Value.{value}
use nakamato_blockchain.Transaction.Create.{IsSpendable, sum_amounts-value, wrap64-add_small}
use nakamato_blockchain.UtxoSet.{UtxoSet, get, balance, select, get_utxos}

-- A choice from a list: a beginning of it that reaches the amount, and no shorter one does.
pub record IsSelection (amount start : ℕ) (from chosen : List Utxo) : Type 0 where
  pub rest : List Utxo
  pub is_prefix : from ≡ chosen ++ rest
  pub covers : amount ≤ start + value chosen
  pub is_least :
      (shorter : List Utxo) (last : Utxo)
      → chosen ≡ shorter ++ last ∷ []
      → start + value shorter < amount

nil-ne-append : (xs : List Utxo) (y : Utxo) → [] ≢ xs ++ y ∷ []
nil-ne-append [] y e = cc
nil-ne-append (x ∷ xs) y e = cc

select-done : (amount n : ℕ) (xs : List Utxo) → amount ≤ n → select (pos amount) (pos n) xs ≡ []
unfolding select
select-done amount n [] h = refl
select-done amount n (x ∷ xs) h = ground arith

select-step :
    (amount n : ℕ) (x : Utxo) (xs : List Utxo)
    → n < amount
    → 0 < pos_part x.amount
    → n + pos_part x.amount < int64_half
    → select (pos amount) (pos n) (x ∷ xs)
      ≡ x ∷ select (pos amount) (pos (n + pos_part x.amount)) xs
unfolding select
select-step amount n x xs h k small = rw (wrap64-add_small n x.amount k small) (ground arith)

-- The start of a longer choice.
least-cons :
    (amount n : ℕ) (x : Utxo) (chosen : List Utxo)
    → n < amount
    → ((shorter : List Utxo) (last : Utxo)
        → chosen ≡ shorter ++ last ∷ []
        → n + pos_part x.amount + value shorter < amount)
    → (shorter : List Utxo) (last : Utxo) → x ∷ chosen ≡ shorter ++ last ∷ []
    → n + value shorter < amount
unfolding value
least-cons amount n x chosen h least [] last e = omega arith
least-cons amount n x chosen h least (y ∷ shorter) last e =
    let same : x ≡ y = cc in
    let tail : chosen ≡ shorter ++ last ∷ [] = cc in
    rw (← same) (omega (arith, least shorter last tail))

select-IsSelection :
    (amount n : ℕ) (a : Str) (xs : List Utxo)
    → All (IsSpendable a) xs
    → n + value xs < int64_half
    → amount ≤ n + value xs
    → IsSelection amount n xs (select (pos amount) (pos n) xs)
unfolding value
select-IsSelection amount n a [] h small enough = record {
  rest = [];
  is_prefix = unfold select in refl;
  covers = unfold select in omega arith;
  is_least = λ shorter last e. absurd (nil-ne-append shorter last (unfold select in e));
}
select-IsSelection amount n a (x ∷ xs) h small enough = elim (dec_lt n amount) [
  | no reached ↦ rw (select-done amount n (x ∷ xs) (omega arith)) (record {
    rest = x ∷ xs;
    is_prefix = refl;
    covers = omega arith;
    is_least = λ shorter last e. absurd (nil-ne-append shorter last e);
  })
  | yes short ↦
      let s =
        select-IsSelection amount (n + pos_part x.amount) a xs h.1 (omega arith) (omega arith) in
      rw (select-step amount n x xs short h.0.0 (omega arith)) (record {
        rest = s.rest;
        is_prefix = ap (◌∷◌ x) s.is_prefix;
        covers = omega (arith, s.covers);
        is_least = least-cons amount n x _ short s.is_least;
      })
]

spendable-balance :
    (u : UtxoSet) (a : Str)
    → All (IsSpendable a) (get u a)
    → value (get u a) < int64_half
    → balance u a ≡ pos (value (get u a))
unfolding balance
spendable-balance u a h small =
    sum_amounts-value 0 a (get u a) h (omega arith) ∙ ap pos (omega arith)

-- `GetUTXOs`, at an address whose UTXOs are spendable and worth less than 2 ^ 63 together, fails
-- where they are worth less than the amount.
pub get_utxos_refuses :
    (u : UtxoSet) (a : Str) (amount : ℕ)
    → All (IsSpendable a) (get u a)
    → value (get u a) < int64_half
    → value (get u a) < amount
    → get_utxos u a (pos amount) ≡ err not_enough_funds
unfolding get_utxos
get_utxos_refuses u a amount h small short = rw (spendable-balance u a h small) (ground arith)

-- `GetUTXOs`, at an address whose UTXOs are spendable, worth less than 2 ^ 63 together and cover
-- the amount, returns a beginning of them that covers it, and no shorter beginning does.
pub get_utxos_selects :
    (u : UtxoSet) (a : Str) (amount : ℕ)
    → All (IsSpendable a) (get u a)
    → value (get u a) < int64_half
    → amount ≤ value (get u a)
    → (chosen : List Utxo) × (get_utxos u a (pos amount) ≡ ok chosen)
      × IsSelection amount 0 (get u a) chosen
unfolding get_utxos
get_utxos_selects u a amount h small enough = (
  select (pos amount) (pos 0) (get u a),
  rw (spendable-balance u a h small) (ground arith),
  select-IsSelection amount 0 a (get u a) h (omega arith) (omega arith),
)
