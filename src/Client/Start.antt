-- ===== src/Client/Start.antt =====
-- cmd/client/main.go: the program, from its arguments to its endless loop. A file is what it decodes
-- to, by its name; a scanned one is its lines and whether the scan stopped at an error.
use mathlib.Core.List.{append-nil, append_assoc}
use nakamato_blockchain.Base.{
  ◌<◌, ◌≡◌, refl, ◌∙◌, sym, Bool, Option, none, some, List, [], ◌∷◌, ◌++◌, length, ◌==◌,
  if◌then◌else◌,
}
use nakamato_blockchain.Base.Text.{Str}
use nakamato_blockchain.Base.Dict.{Dict}
use nakamato_blockchain.Types.{file_not_read, Result, ok, err, panic, ◌>>=◌}
use nakamato_blockchain.Crypto.{Primitives}
use nakamato_blockchain.UtxoSet.{UtxoSet, new_utxo_set}
use nakamato_blockchain.Client.{
  UtxoEntry, KeyPair, Draw, Client, read_key_map, populate_initial_utxo_set,
  create_and_send_transactions,
}
use nakamato_blockchain.Client.Rounds.{Advanced, Advanced-refl, Advanced-trans}
use nakamato_blockchain.Client.Total.{create_and_send_transactions_advances}

-- What a scanner reads: the lines, and whether an error stopped it.
pub record Scan : Type 0 where
  pub lines : List Str
  pub failed : Bool

unfoldable pub miner_ips_from : List Str → List Str → List Str
miner_ips_from miner_ips [] = miner_ips
miner_ips_from miner_ips (line ∷ lines) = miner_ips_from (miner_ips ++ line ∷ []) lines

unfoldable pub read_miner_ips : Option Scan → Result (List Str)
unfolding miner_ips_from
read_miner_ips none = err file_not_read
read_miner_ips (some scan) =
    if scan.failed then err file_not_read else ok (miner_ips_from [] scan.lines)

pub record Files : Type 0 where
  pub keys : Str → Option (List KeyPair)
  pub utxos : Str → Option (List UtxoEntry)
  pub scans : Str → Option Scan

-- Why the program ends at its start.
pub data Fatal : Type 0 where
  usage keys_not_read utxos_not_read miners_not_read no_miners : Fatal

-- What the loop needs.
pub record Started : Type 0 where
  pub key_map : Dict Str
  pub miner_ips : List Str
  pub client : Client

pub data Start : Type 0 where
  fatal : Fatal → Start
  started : Started → Start

abbrev pub with_miners : Dict Str → UtxoSet → Result (List Str) → Start
with_miners key_map u (ok ips) =
    if length ips == 0
    then fatal no_miners
    else started
        (record { key_map = key_map; miner_ips = ips; client = record { utxo_set = u; sent = [] } })
with_miners key_map u (err _) = fatal miners_not_read
with_miners key_map u panic = fatal miners_not_read

abbrev pub with_utxos : Dict Str → Result (List Str) → Result (Unit {0}) × UtxoSet → Start
with_utxos key_map miners (ok _, u) = with_miners key_map u miners
with_utxos key_map miners (err _, u) = fatal utxos_not_read
with_utxos key_map miners (panic, u) = fatal utxos_not_read

abbrev pub with_keys : Result (Dict Str) → Result (List Str) → Result (Unit {0}) × UtxoSet → Start
with_keys (ok key_map) miners populated = with_utxos key_map miners populated
with_keys (err _) miners populated = fatal keys_not_read
with_keys panic miners populated = fatal keys_not_read

-- The arguments begin with the program's name; fewer than four are an error.
unfoldable pub start_client : Primitives → Files → List Str → Start
start_client p files (program ∷ utxos_file ∷ keys_file ∷ miners_file ∷ rest) =
    with_keys (read_key_map (files.keys keys_file)) (read_miner_ips (files.scans miners_file))
      (populate_initial_utxo_set p new_utxo_set (files.utxos utxos_file))
start_client p files _ = fatal usage

-- The loop: one call for each visit of the keys.
unfoldable pub run_client :
    Primitives → Dict Str → List Str → Client → List (List (Str × Draw)) → Result Client
run_client p key_map miner_ips c [] = ok c
run_client p key_map miner_ips c (rounds ∷ visits) =
    create_and_send_transactions p key_map miner_ips c rounds >>= λ c'.
    run_client p key_map miner_ips c' visits

-- How far the program has come.
pub data Progress : Type 0 where
  ended : Fatal → Progress
  running : Client → Progress
  crashed : Progress

abbrev progress_of : Result Client → Progress
progress_of (ok c) = running c
progress_of (err _) = crashed
progress_of panic = crashed

unfoldable pub client_main : Primitives → Files → List Str → List (List (Str × Draw)) → Progress
client_main p files args visits = elim (start_client p files args) [
  | fatal e ↦ ended e
  | started s ↦ progress_of (run_client p s.key_map s.miner_ips s.client visits)
]

pub run_client_advances :
    (p : Primitives) (key_map : Dict Str) (ips : List Str) (c : Client)
    (visits : List (List (Str × Draw)))
    → 0 < length ips
    → (c' : Client) × (run_client p key_map ips c visits ≡ ok c') × Advanced ips c c'
unfolding run_client
run_client_advances p key_map ips c [] h = (c, refl, Advanced-refl ips c)
run_client_advances p key_map ips c (rounds ∷ visits) h =
    let (m, e, first) = create_and_send_transactions_advances p key_map ips c rounds h in
    let (c', f, rest) = run_client_advances p key_map ips m visits h in
    (c', rw e f, Advanced-trans ips c m c' first rest)

pub miner_ips_from-append : (ips lines : List Str) → miner_ips_from ips lines ≡ ips ++ lines
unfolding miner_ips_from
miner_ips_from-append ips [] = sym (append-nil ips)
miner_ips_from-append ips (line ∷ lines) =
    miner_ips_from-append (ips ++ line ∷ []) lines ∙ append_assoc ips (line ∷ []) lines
