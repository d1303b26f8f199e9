-- ===== src/Generator/Programs.antt =====
-- The file of first UTXOs, from the generator to the programs that read it.
use nakamato_blockchain.Base.{
  ℕ, ◌≡◌, sym, ap, ◌∙◌, Option, some, List, ◌∷◌, arith, length, inl, inr, ◌==◌, Bool-cases,
}
use nakamato_blockchain.Base.Int.{ℤ}
use nakamato_blockchain.Base.Text.{Str}
use nakamato_blockchain.Base.Dict.{Dict}
use nakamato_blockchain.Types.{Result, returned, failed, panicked, outcome, ok, err, panic}
use nakamato_blockchain.Crypto.{Primitives}
use nakamato_blockchain.UtxoSet.{UtxoSet, new_utxo_set}
use nakamato_blockchain.Client.{UtxoEntry, KeyPair, read_key_map, populate_initial_utxo_set}
use nakamato_blockchain.Client.Start.{
  Files, Started, started, with_keys, with_miners, read_miner_ips, start_client,
}
use nakamato_blockchain.Miner.{start_node, miner_main}
use nakamato_blockchain.Server.{BlockchainServer}
use nakamato_blockchain.Generator.{
  UtxoDraw, read_keys, with_draws, generate_initial_utxos, initial_utxos_main,
}
use nakamato_blockchain.Generator.SameSet.{start_node-populate}

with_miners-set :
    (key_map : Dict Str) (u : UtxoSet) (miners : Result (List Str)) (s : Started)
    → with_miners key_map u miners ≡ started s
    → s.client.utxo_set ≡ u
with_miners-set key_map u (ok ips) s h = elim (Bool-cases (length ips == 0)) [
  | inl e ↦ absurd (ground (arith, h, e))
  | inr e ↦ ground (arith, h, e)
]
with_miners-set key_map u (err r) s h = absurd (cc h)
with_miners-set key_map u panic s h = absurd (cc h)

-- The first UTXOs of a client that has started.
with_keys-set :
    (keys : Result (Dict Str)) (miners : Result (List Str)) (r : Result (Unit {0}) × UtxoSet)
    (s : Started)
    → with_keys keys miners r ≡ started s
    → s.client.utxo_set ≡ r.1
with_keys-set (ok key_map) miners (ok _, u) s h = with_miners-set key_map u miners s h
with_keys-set (ok key_map) miners (err r, u) s h = absurd (ground (arith, h))
with_keys-set (ok key_map) miners (panic, u) s h = absurd (ground (arith, h))
with_keys-set (err r) miners populated s h = absurd (ground (arith, h))
with_keys-set panic miners populated s h = absurd (ground (arith, h))

-- A miner and a client that start with the file of first UTXOs that the generator wrote begin with
-- the same UTXO set, though the miner takes the addresses from the file and the client computes
-- them from the keys.
pub programs_agree :
    (split : Str → Option (Str × Str)) (dial : Str → Option ℕ) (p : Primitives) (atoi : Str → ℤ)
    (files : Files) (now num max min : ℤ) (keys_file : Option (List KeyPair))
    (draws : ℕ → ℕ → UtxoDraw) (es : List UtxoEntry)
    (program utxos_file http_port grpc_port mode : Str) (addresses : List Str)
    (client keys miners : Str) (rest : List Str) (s : BlockchainServer) (c : Started)
    → initial_utxos_main p keys_file draws num max min ≡ ok es
    → files.utxos utxos_file ≡ some es
    → miner_main split dial p atoi files.utxos now
        (program ∷ utxos_file ∷ http_port ∷ grpc_port ∷ mode ∷ addresses)
      ≡ some s
    → start_client p files (client ∷ utxos_file ∷ keys ∷ miners ∷ rest) ≡ started c
    → c.client.utxo_set ≡ s.blockchain.utxo_set
unfolding initial_utxos_main miner_main start_client
programs_agree split dial p atoi files now num max min keys_file draws es program utxos_file
      http_port grpc_port mode addresses client keys miners rest s c generated saved mined begun =
    elim (outcome (read_keys keys_file)) [
      | failed r e ↦ absurd (ground (arith, generated, e))
      | panicked e ↦ absurd (ground (arith, generated, e))
      | returned ks e ↦
          let made : generate_initial_utxos p (with_draws draws 0 ks) num max min ≡ ok es =
            ground (arith, generated, e) in
          let node : start_node split dial p now (some es) (atoi mode) addresses ≡ some s =
            ap (λ f. start_node split dial p now f (atoi mode) addresses) (sym saved) ∙ mined in
          with_keys-set (read_key_map (files.keys keys)) (read_miner_ips (files.scans miners))
            (populate_initial_utxo_set p new_utxo_set (files.utxos utxos_file)) c begun
          ∙ ap (λ f. (populate_initial_utxo_set p new_utxo_set f).1) saved
          ∙ start_node-populate split dial p now (atoi mode) num max min (with_draws draws 0 ks) es
              addresses s made node
    ]
