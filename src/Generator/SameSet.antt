-- ===== src/Generator/SameSet.antt =====
-- Miners and clients start from the same UTXO set.
use nakamato_blockchain.Base.{
  ℕ, zero, suc, ◌≡◌, refl, sym, ap, subst, Option, some, List, [], ◌∷◌, ◌++◌, arith, All, ◌∙◌,
}
use nakamato_blockchain.Base.Int.{ℤ, pos, ◌+ℤ◌, ◌-ℤ◌, pos_part, wrap64}
use nakamato_blockchain.Base.Text.{Str}
use nakamato_blockchain.Types.{Utxo, Outcome, returned, failed, panicked, outcome, ok, ok-inj}
use nakamato_blockchain.Crypto.{Primitives, key_to_addr}
use nakamato_blockchain.UtxoSet.{UtxoSet, new_utxo_set, add_utxo, add_utxos}
use nakamato_blockchain.Blockchain.{new_blockchain}
use nakamato_blockchain.Server.{BlockchainServer, new_blockchain_server}
use nakamato_blockchain.Server.Mining.{start_mining}
use nakamato_blockchain.Client.{
  UtxoEntry, KeyPair, populate_entry, populate_entries, populate_initial_utxo_set,
}
use nakamato_blockchain.Miner.{utxos_of, load_utxos, start_node}
use nakamato_blockchain.Generator.{
  UtxoDraw, int63n, generate_tx_id, generate_utxos, generate_initial_utxos,
}

abbrev IsAt : Str → Utxo → Type 0
IsAt address x = x.address ≡ address

-- The UTXOs of the entry name the address of its key.
abbrev IsOwn : Primitives → UtxoEntry → Type 0
IsOwn p e = All (IsAt (key_to_addr p e.public_key)) e.utxos

All-cons {ℓ κ} :
    {A : Type ℓ} (P : A → Type κ) (x : A) (xs ys : List A) → x ∷ xs ≡ ys → P x → All P xs → All P ys
All-cons P x xs ys e h hs = let both : All P (x ∷ xs) = (h, hs) in subst (All P) e both

add_utxos-append :
    (u : UtxoSet) (xs ys : List Utxo) → add_utxos u (xs ++ ys) ≡ add_utxos (add_utxos u xs) ys
unfolding add_utxos
add_utxos-append u [] ys = refl
add_utxos-append u (x ∷ xs) ys = add_utxos-append (add_utxo u x) xs ys

populate_entry-IsAt :
    (address : Str) (u : UtxoSet) (xs : List Utxo)
    → All (IsAt address) xs
    → populate_entry address u xs ≡ add_utxos u xs
unfolding populate_entry add_utxos
populate_entry-IsAt address u [] h = refl
populate_entry-IsAt address u (x ∷ xs) (e, h) =
    ap (λ a. populate_entry address (add_utxo u (record x { address = a })) xs) (sym e)
    ∙ populate_entry-IsAt address (add_utxo u x) xs h

populate_entries-IsOwn :
    (p : Primitives) (u : UtxoSet) (es : List UtxoEntry)
    → All (IsOwn p) es
    → populate_entries p u es ≡ add_utxos u (utxos_of es)
unfolding populate_entries utxos_of add_utxos
populate_entries-IsOwn p u [] h = refl
populate_entries-IsOwn p u (e ∷ es) (own, h) =
    ap (λ v. populate_entries p v es)
      (populate_entry-IsAt (key_to_addr p e.public_key) u e.utxos own)
    ∙ populate_entries-IsOwn p (add_utxos u e.utxos) es h
    ∙ sym (add_utxos-append u e.utxos (utxos_of es))

generate_utxos-IsAt :
    (address : Str) (max min : ℤ) (draws : ℕ → UtxoDraw) (i rounds : ℕ) (us : List Utxo)
    → generate_utxos address max min draws i rounds ≡ ok us
    → All (IsAt address) us
unfolding generate_utxos
generate_utxos-IsAt address max min draws i zero us h =
    subst (All (IsAt address)) (ok-inj [] us h) tt
generate_utxos-IsAt address max min draws i (suc rounds) us h =
    go (generate_utxos-IsAt address max min draws (suc i) rounds)
      (outcome (int63n range (draws i).amount))
      (outcome (generate_utxos address max min draws (suc i) rounds))
  where
    range : ℤ
    range = wrap64 (wrap64 (max -ℤ min) +ℤ pos 1)

    go :
        ((rest : List Utxo)
          → generate_utxos address max min draws (suc i) rounds ≡ ok rest
          → All (IsAt address) rest)
        → Outcome (int63n range (draws i).amount)
        → Outcome (generate_utxos address max min draws (suc i) rounds)
        → All (IsAt address) us
    go ih (returned drawn e) (returned rest f) =
        All-cons (IsAt address)
          (record {
            tx_id = generate_tx_id (draws i).id_bytes;
            index = pos i;
            amount = wrap64 (drawn +ℤ min);
            address = address;
          })
          rest us (ground (arith, h, e, f)) refl (ih rest f)
    go ih (returned drawn e) (failed r f) = absurd (ground (arith, h, e, f))
    go ih (returned drawn e) (panicked f) = absurd (ground (arith, h, e, f))
    go ih (failed r e) _ = absurd (ground (arith, h, e))
    go ih (panicked e) _ = absurd (ground (arith, h, e))

generate_initial_utxos-IsOwn :
    (p : Primitives) (num max min : ℤ) (ds : List (KeyPair × (ℕ → UtxoDraw))) (es : List UtxoEntry)
    → generate_initial_utxos p ds num max min ≡ ok es
    → All (IsOwn p) es
unfolding generate_initial_utxos
generate_initial_utxos-IsOwn p num max min [] es h = subst (All (IsOwn p)) (ok-inj [] es h) tt
generate_initial_utxos-IsOwn p num max min ((key_pair, draws) ∷ ds) es h =
    go (generate_initial_utxos-IsOwn p num max min ds)
      (outcome (generate_utxos address max min draws 0 (pos_part num)))
      (outcome (generate_initial_utxos p ds num max min))
  where
    address : Str
    address = key_to_addr p key_pair.public_key

    go :
        ((rest : List UtxoEntry)
          → generate_initial_utxos p ds num max min ≡ ok rest
          → All (IsOwn p) rest)
        → Outcome (generate_utxos address max min draws 0 (pos_part num))
        → Outcome (generate_initial_utxos p ds num max min)
        → All (IsOwn p) es
    go ih (returned us e) (returned rest f) =
        All-cons (IsOwn p) (record { public_key = key_pair.public_key; utxos = us }) rest es
          (ground (arith, h, e, f))
          (generate_utxos-IsAt address max min draws 0 (pos_part num) us e) (ih rest f)
    go ih (returned us e) (failed r f) = absurd (ground (arith, h, e, f))
    go ih (returned us e) (panicked f) = absurd (ground (arith, h, e, f))
    go ih (failed r e) _ = absurd (ground (arith, h, e))
    go ih (panicked e) _ = absurd (ground (arith, h, e))

pub start_node-set :
    (split : Str → Option (Str × Str)) (dial : Str → Option ℕ) (p : Primitives) (now mode : ℤ)
    (es : List UtxoEntry) (addresses : List Str) (s : BlockchainServer)
    → start_node split dial p now (some es) mode addresses ≡ some s
    → s.blockchain.utxo_set ≡ add_utxos new_utxo_set (utxos_of es)
unfolding start_node load_utxos new_blockchain_server new_blockchain start_mining
start_node-set split dial p now mode es addresses s h = ground (arith, h)

-- A miner and a client that read the same generated file start from the same UTXO set, though the
-- miner takes the addresses from the file and the client computes them from the keys.
pub start_node-populate :
    (split : Str → Option (Str × Str)) (dial : Str → Option ℕ) (p : Primitives)
    (now mode num max min : ℤ) (ds : List (KeyPair × (ℕ → UtxoDraw))) (es : List UtxoEntry)
    (addresses : List Str) (s : BlockchainServer)
    → generate_initial_utxos p ds num max min ≡ ok es
    → start_node split dial p now (some es) mode addresses ≡ some s
    → (populate_initial_utxo_set p new_utxo_set (some es)).1 ≡ s.blockchain.utxo_set
unfolding populate_initial_utxo_set
start_node-populate split dial p now mode num max min ds es addresses s generated started =
    populate_entries-IsOwn p new_utxo_set es
      (generate_initial_utxos-IsOwn p num max min ds es generated)
    ∙ sym (start_node-set split dial p now mode es addresses s started)
