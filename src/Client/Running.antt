-- ===== src/Client/Running.antt =====
-- The command-line client as a whole: when it starts, and that it then never panics.
use nakamato_blockchain.Base.{
  ◌<◌, ◌≡◌, ◌⊎◌, refl, inl, inr, false, some, List, [], ◌∷◌, arith, length,
}
use nakamato_blockchain.Base.Text.{Str}
use nakamato_blockchain.Crypto.{Primitives}
use nakamato_blockchain.UtxoSet.{new_utxo_set}
use nakamato_blockchain.Client.{
  UtxoEntry, KeyPair, Draw, Client, read_key_map, key_map_from, populate_entries,
  populate_initial_utxo_set,
}
use nakamato_blockchain.Client.Rounds.{Advanced}
use nakamato_blockchain.Client.Start.{
  Files, Fatal, Started, Start, fatal, started, read_miner_ips, start_client, client_main, ended,
  running, run_client_advances, miner_ips_from-append,
}

-- A program that starts has a miner.
pub started-has_miner :
    (p : Primitives) (files : Files) (args : List Str) (s : Started)
    → start_client p files args ≡ started s
    → 0 < length s.miner_ips
unfolding start_client populate_initial_utxo_set read_key_map read_miner_ips
started-has_miner p files [] s h = absurd (cc h)
started-has_miner p files (a ∷ []) s h = absurd (cc h)
started-has_miner p files (a ∷ b ∷ []) s h = absurd (cc h)
started-has_miner p files (a ∷ b ∷ c ∷ []) s h = absurd (cc h)
started-has_miner p files (a ∷ b ∷ c ∷ d ∷ rest) s h = ground (arith, h)

pub Start-cases : (r : Start) → ((e : Fatal) × (r ≡ fatal e)) ⊎ ((s : Started) × (r ≡ started s))
Start-cases (fatal e) = inl (e, refl)
Start-cases (started s) = inr (s, refl)

-- The command-line client ends at its start with one of its messages, or it runs and no visit of
-- its loop panics, whatever its arguments, files, draws and answers are: its set is then worth no
-- more than at the start, and each message that it sent went to the gRPC port of one of the miners
-- of its file.
pub client_main_advances :
    (p : Primitives) (files : Files) (args : List Str) (visits : List (List (Str × Draw)))
    → ((e : Fatal) × (client_main p files args visits ≡ ended e))
      ⊎ ((s : Started) × (c : Client) × (start_client p files args ≡ started s)
          × (client_main p files args visits ≡ running c)
          × Advanced s.miner_ips s.client c)
unfolding client_main
client_main_advances p files args visits = elim (Start-cases (start_client p files args)) [
  | inl (e, h) ↦ inl (e, ground (arith, h))
  | inr (s, h) ↦
      let (c, run, advanced) =
        run_client_advances p s.key_map s.miner_ips s.client visits
          (started-has_miner p files args s h) in
      inr (s, c, h, ground (arith, h, run), advanced)
]

module _ (p : Primitives) (files : Files) (program utxos_file keys_file miners_file : Str)
    (rest : List Str) (ks : List KeyPair) (es : List UtxoEntry) (lines : List Str)
    (keys : files.keys keys_file ≡ some ks) (utxos : files.utxos utxos_file ≡ some es)
    (miners : files.scans miners_file ≡ some (record { lines = lines; failed = false }))
    (some_miner : 0 < length lines) where
  -- The client as the files describe it.
  abbrev pub first_client : Client
  first_client = record { utxo_set = populate_entries p new_utxo_set es; sent = [] }

  start_client-files :
      start_client p files (program ∷ utxos_file ∷ keys_file ∷ miners_file ∷ rest)
      ≡ started (record { key_map = key_map_from [] ks; miner_ips = lines; client = first_client })
  unfolding start_client populate_initial_utxo_set read_key_map read_miner_ips
  start_client-files =
      rw (keys, utxos, miners, miner_ips_from-append [] lines) (ground (arith, some_miner))

  -- With four arguments or more, the three files read, and at least one miner, the client runs with the
  -- keys, UTXOs and miners of the files.
  pub client_main_runs :
      (visits : List (List (Str × Draw)))
      → (c : Client) × (client_main p files
            (program ∷ utxos_file ∷ keys_file ∷ miners_file ∷ rest)
            visits
          ≡ running c)
        × Advanced lines first_client c
  unfolding client_main
  client_main_runs visits =
      let (c, run, advanced) =
        run_client_advances p (key_map_from [] ks) lines first_client visits some_miner in
      (c, ground (arith, start_client-files, run), advanced)
