-- ===== src/Generator.antt =====
-- config/key/key_generator.go and config/utxo/initial_utxo_generator.go. What they draw from the random
-- sources are arguments. The files that they write hold the lists that they return.
pub mod FirstUtxos
pub mod SameSet
pub mod Programs
use nakamato_blockchain.Base.{
  ℕ, zero, suc, ◌+◌, ◌%◌, Option, none, some, List, [], ◌∷◌, if◌then◌else◌,
}
use nakamato_blockchain.Base.Int.{ℤ, pos, ◌+ℤ◌, ◌-ℤ◌, pos_part, leb_ℤ, ltb_ℤ, wrap64}
use nakamato_blockchain.Base.Text.{Str}
use nakamato_blockchain.Types.{
  Utxo, Error, generate_failed, file_not_read, Result, ok, err, panic, ◌>>=◌,
}
use nakamato_blockchain.Encoding.Hex.{encode}
use nakamato_blockchain.Crypto.{Primitives, key_to_addr}
use nakamato_blockchain.Client.{UtxoEntry, KeyPair}

-- `ecdsa.GenerateKey`, by what it draws, and the functions that turn keys into bytes; none is an error.
pub record KeyPrimitives (p : Primitives) : Type 0 where
  pub generate_key : ℕ → Option p.PrivateKey
  pub public_of : p.PrivateKey → p.PublicKey
  pub marshal_ec_private_key : p.PrivateKey → Option (List ℕ)
  pub marshal_pkix_public_key : p.PublicKey → Option (List ℕ)

abbrev or_failed {ℓ} : {A : Type ℓ} → Option A → Result A
or_failed none = err generate_failed
or_failed (some a) = ok a

module _ (p : Primitives) where
  unfoldable pub generate_key_pair : KeyPrimitives p → ℕ → Result KeyPair
  generate_key_pair g random = or_failed (g.generate_key random) >>= λ private_key.
      or_failed (g.marshal_ec_private_key private_key) >>= λ private_key_bytes.
      or_failed (g.marshal_pkix_public_key (g.public_of private_key)) >>= λ public_key_bytes.
      ok (record {
        public_key = p.base64_encode public_key_bytes;
        private_key = p.base64_encode private_key_bytes;
      })

  -- The loop of `generateMultipleKeyPairs` from round i on; a pair that cannot be generated is left out.
  unfoldable pub key_pairs_from : KeyPrimitives p → (ℕ → ℕ) → ℕ → ℕ → List KeyPair
  key_pairs_from g randoms i zero = []
  key_pairs_from g randoms i (suc rounds) =
      let rest = key_pairs_from g randoms (suc i) rounds in
      elim (generate_key_pair g (randoms i)) [ ok k ↦ k ∷ rest | err _ ↦ rest | panic ↦ rest ]

  -- `make` panics on a negative capacity. What each round draws is an argument.
  unfoldable pub generate_multiple_key_pairs : KeyPrimitives p → ℤ → (ℕ → ℕ) → Result (List KeyPair)
  unfolding key_pairs_from
  generate_multiple_key_pairs g count randoms =
      if ltb_ℤ count (pos 0) then panic else ok (key_pairs_from g randoms 0 (pos_part count))

-- `rand.Int63n(n)`, by the number drawn: a panic for an n that is not positive.
unfoldable pub int63n : ℤ → ℕ → Result ℤ
int63n n drawn = if leb_ℤ n (pos 0) then panic else ok (pos (drawn % pos_part n))

-- `generateTxID`: the text of the bytes drawn.
unfoldable pub generate_tx_id : List ℕ → Str
generate_tx_id rand_bytes = encode rand_bytes

-- What is drawn for one UTXO.
pub record UtxoDraw : Type 0 where
  pub amount : ℕ
  pub id_bytes : List ℕ

-- The inner loop, from index i on: the UTXOs of one key, by what is drawn for each index.
unfoldable pub generate_utxos : Str → ℤ → ℤ → (ℕ → UtxoDraw) → ℕ → ℕ → Result (List Utxo)
generate_utxos address max_amount min_amount draws i zero = ok []
generate_utxos address max_amount min_amount draws i (suc rounds) =
    int63n (wrap64 (wrap64 (max_amount -ℤ min_amount) +ℤ pos 1)) (draws i).amount >>= λ drawn.
    generate_utxos address max_amount min_amount draws (suc i) rounds >>= λ rest. ok (
      record {
        tx_id = generate_tx_id (draws i).id_bytes;
        index = pos i;
        amount = wrap64 (drawn +ℤ min_amount);
        address = address;
      }
      ∷ rest)

-- One entry for each key, which comes with what is drawn for its UTXOs. The loop on the UTXOs of a key
-- has no round if their number is negative.
unfoldable pub generate_initial_utxos :
    Primitives → List (KeyPair × (ℕ → UtxoDraw)) → ℤ → ℤ → ℤ → Result (List UtxoEntry)
unfolding generate_utxos
generate_initial_utxos p [] num_utxos_per_key max_amount min_amount = ok []
generate_initial_utxos p ((key_pair, draws) ∷ rest) num_utxos_per_key max_amount min_amount =
    generate_utxos (key_to_addr p key_pair.public_key) max_amount min_amount draws 0
      (pos_part num_utxos_per_key)
    >>= λ utxos.
        generate_initial_utxos p rest num_utxos_per_key max_amount min_amount >>= λ entries.
        ok (record { public_key = key_pair.public_key; utxos = utxos } ∷ entries)

unfoldable pub read_keys : Option (List KeyPair) → Result (List KeyPair)
read_keys none = err file_not_read
read_keys (some key_pairs) = ok key_pairs

-- The key pairs, each with what is drawn for it, from index i.
unfoldable pub with_draws : (ℕ → ℕ → UtxoDraw) → ℕ → List KeyPair → List (KeyPair × (ℕ → UtxoDraw))
with_draws draws i [] = []
with_draws draws i (k ∷ ks) = (k, draws i) ∷ with_draws draws (suc i) ks

-- `main` of the generator of first UTXOs: the entries that it saves.
unfoldable pub initial_utxos_main :
    Primitives → Option (List KeyPair) → (ℕ → ℕ → UtxoDraw) → ℤ → ℤ → ℤ → Result (List UtxoEntry)
unfolding read_keys with_draws
initial_utxos_main p keys_file draws num_utxos_per_key max_amount min_amount =
    read_keys keys_file >>= λ key_pairs.
    generate_initial_utxos p (with_draws draws 0 key_pairs) num_utxos_per_key max_amount min_amount
