-- ===== src/Generator/FirstUtxos.antt =====
-- The amounts of the first UTXOs.
use nakamato_blockchain.Base.{
  ℕ, zero, suc, ◌+◌, ◌-◌, ◌%◌, ◌≤◌, ◌<◌, ◌≡◌, refl, ap, List, [], ◌∷◌, arith, length, All,
}
use nakamato_blockchain.Base.Int.{ℤ, pos, pos_part, ◌+ℤ◌, ◌-ℤ◌, wrap64, int64_half}
use nakamato_blockchain.Base.Text.{Str}
use nakamato_blockchain.Types.{Utxo, ok}
use nakamato_blockchain.Crypto.{Primitives, key_to_addr}
use nakamato_blockchain.Client.{UtxoEntry, KeyPair}
use nakamato_blockchain.Generator.{
  UtxoDraw, int63n, generate_tx_id, generate_utxos, generate_initial_utxos,
}

-- A UTXO at the address, worth between the two amounts.
pub record IsWithin (address : Str) (min max : ℕ) (x : Utxo) : Type 0 where
  pub at : x.address ≡ address
  pub amount : ℕ
  pub is_amount : x.amount ≡ pos amount
  pub low : min ≤ amount
  pub high : amount ≤ max

-- The entry of a key, with as many UTXOs as each key is to have.
pub record IsEntryOf (p : Primitives) (num : ℤ) (min max : ℕ) (d : KeyPair × (ℕ → UtxoDraw))
    (e : UtxoEntry) : Type 0 where
  pub key : e.public_key ≡ (d.0).public_key
  pub within : All (IsWithin (key_to_addr p e.public_key) min max) e.utxos
  pub count : length e.utxos ≡ pos_part num

abbrev pub AreEntriesOf :
    Primitives → ℤ → ℕ → ℕ → List (KeyPair × (ℕ → UtxoDraw)) → List UtxoEntry → Type 0
AreEntriesOf p num min max [] [] = Unit
AreEntriesOf p num min max [] (e ∷ es) = ⊥
AreEntriesOf p num min max (d ∷ ds) [] = ⊥
AreEntriesOf p num min max (d ∷ ds) (e ∷ es) =
    IsEntryOf p num min max d e × AreEntriesOf p num min max ds es

module _ (min max : ℕ) (ordered : min ≤ max) (small : max < int64_half)
    (short : max - min + 1 < int64_half) where
  range-wrap64 : wrap64 (wrap64 (pos max -ℤ pos min) +ℤ pos 1) ≡ pos (max - min + 1)
  unfolding wrap64 ◌-ℤ◌ ◌+ℤ◌
  range-wrap64 = ground arith

  drawn-wrap64 : (n : ℕ) → n ≤ max - min → wrap64 (pos n +ℤ pos min) ≡ pos (n + min)
  unfolding wrap64 ◌+ℤ◌
  drawn-wrap64 n h = ground arith

  int63n-range :
      (drawn : ℕ)
      → int63n (wrap64 (wrap64 (pos max -ℤ pos min) +ℤ pos 1)) drawn
        ≡ ok (pos (drawn % (max - min + 1)))
  unfolding int63n
  int63n-range drawn = rw range-wrap64 (ground arith)

  generate_utxos-IsWithin :
      (address : Str) (draws : ℕ → UtxoDraw) (i rounds : ℕ)
      → (us : List Utxo) × (generate_utxos address (pos max) (pos min) draws i rounds ≡ ok us)
        × All (IsWithin address min max) us
        × (length us ≡ rounds)
  unfolding generate_utxos
  generate_utxos-IsWithin address draws i zero = ([], refl, tt, refl)
  generate_utxos-IsWithin address draws i (suc rounds) =
      let (us, e, within, count) = generate_utxos-IsWithin address draws (suc i) rounds in
      let drawn = (draws i).amount % (max - min + 1) in
      let in_range : drawn ≤ max - min = grind arith in
      (
        record {
          tx_id = generate_tx_id (draws i).id_bytes;
          index = pos i;
          amount = wrap64 (pos drawn +ℤ pos min);
          address = address;
        }
            ∷ us,
        ground (arith, int63n-range (draws i).amount, e),
        (
          record {
            at = refl;
            amount = drawn + min;
            is_amount = drawn-wrap64 drawn in_range;
            low = omega arith;
            high = omega (arith, in_range);
          },
          within,
        ),
        ap suc count,
      )

  -- `generateInitialUTXOs` does not panic where the smallest amount is not negative and at most the
  -- largest, and the largest and the number of amounts from the one to the other are below 2 ^ 63:
  -- it returns an entry for each key, with as many UTXOs as were asked for, none if their number is
  -- negative, each at the key's address and worth between the two amounts.
  pub generate_initial_utxos-AreEntriesOf :
      (p : Primitives) (num : ℤ) (ds : List (KeyPair × (ℕ → UtxoDraw)))
      → (es : List UtxoEntry) × (generate_initial_utxos p ds num (pos max) (pos min) ≡ ok es)
        × AreEntriesOf p num min max ds es
  unfolding generate_initial_utxos
  generate_initial_utxos-AreEntriesOf p num [] = ([], refl, tt)
  generate_initial_utxos-AreEntriesOf p num ((key_pair, draws) ∷ ds) =
      let (us, e, within, count) =
        generate_utxos-IsWithin (key_to_addr p key_pair.public_key) draws 0 (pos_part num) in
      let (es, f, rest) = generate_initial_utxos-AreEntriesOf p num ds in
      (
        record { public_key = key_pair.public_key; utxos = us } ∷ es,
        ground (arith, e, f),
        (record { key = refl; within = within; count = count }, rest),
      )
