-- ===== src/Client/Ui/Menu.antt =====
-- cmd/clientui/main.go: the program, from its arguments to the end of its menu. Its helpers repeat those
-- of cmd/client/main.go, and stand here for the same functions.
use nakamato_blockchain.Base.{Option, List, [], ◌∷◌, if◌then◌else◌}
use nakamato_blockchain.Base.Int.{ℤ}
use nakamato_blockchain.Base.Text.{Str, codes, str_eq}
use nakamato_blockchain.Base.Dict.{Dict}
use nakamato_blockchain.Types.{Result, ok, err, panic}
use nakamato_blockchain.Crypto.{Primitives}
use nakamato_blockchain.UtxoSet.{UtxoSet, new_utxo_set}
use nakamato_blockchain.Convert.{TransactionStatus}
use nakamato_blockchain.Client
use nakamato_blockchain.Client.{UtxoEntry, KeyPair, Client}
use nakamato_blockchain.Client.Start
use nakamato_blockchain.Client.Start.{
  Scan, Files, Fatal, usage, Started, Start, fatal, started, with_keys,
}
use nakamato_blockchain.Client.Ui.{
  Request, Chance, StatusReport, handle_send_transaction, handle_get_balance, handle_check_status,
}

unfoldable pub read_miner_ips : Option Scan → Result (List Str)
unfolding Start.read_miner_ips
read_miner_ips file = Start.read_miner_ips file

unfoldable pub read_key_map : Option (List KeyPair) → Result (Dict Str)
unfolding Client.read_key_map
read_key_map file = Client.read_key_map file

unfoldable pub populate_initial_utxo_set :
    Primitives → UtxoSet → Option (List UtxoEntry) → Result (Unit {0}) × UtxoSet
unfolding Client.populate_initial_utxo_set
populate_initial_utxo_set p u file = Client.populate_initial_utxo_set p u file

-- `main`, up to its loop.
unfoldable pub start_ui : Primitives → Files → List Str → Start
unfolding read_miner_ips read_key_map populate_initial_utxo_set
start_ui p files (program ∷ utxos_file ∷ keys_file ∷ miners_file ∷ rest) =
    with_keys (read_key_map (files.keys keys_file)) (read_miner_ips (files.scans miners_file))
      (populate_initial_utxo_set p new_utxo_set (files.utxos utxos_file))
start_ui p files _ = fatal usage

-- What is typed in one round: the choice, and what its handler then asks for.
pub record Input : Type 0 where
  pub choice : Str
  pub request : Request
  pub chance : Chance
  pub tx_hash : Str
  pub pub_key : Str

-- What a round prints.
pub data Shown : Type 0 where
  payment_result : Result Str → Shown
  transaction_status : StatusReport → Shown
  local_balance : ℤ → Shown
  invalid_choice : Shown

-- Whether the menu is shown again.
pub data Turn : Type 0 where
  again : Shown → Client → Turn
  quit crashed : Turn

abbrev pub after_send : Result Str × Client → Turn
after_send (ok hash, c) = again (payment_result (ok hash)) c
after_send (err e, c) = again (payment_result (err e)) c
after_send (panic, c) = crashed

-- Where the loop is after what was typed, and what it has printed.
pub data Session : Type 0 where
  waiting : Client → List Shown → Session
  exited : Client → List Shown → Session
  panicked : Session

abbrev pub showing : Shown → Session → Session
showing m (waiting c shown) = waiting c (m ∷ shown)
showing m (exited c shown) = exited c (m ∷ shown)
showing m panicked = panicked

module _ (p : Primitives) (answer : Str → Str → ℤ → Option TransactionStatus) (key_map : Dict Str)
    (miner_ips : List Str) where
  unfoldable pub menu_round : Client → Input → Turn
  menu_round c input =
      if str_eq input.choice (codes "1")
      then after_send (handle_send_transaction p key_map miner_ips c input.request input.chance)
      else if str_eq input.choice (codes "2")
      then again (transaction_status (handle_check_status answer miner_ips input.tx_hash)) c
      else if str_eq input.choice (codes "3")
      then again (local_balance (handle_get_balance p c input.pub_key)) c
      else if str_eq input.choice (codes "4")
      then quit
      else again invalid_choice c

  unfoldable pub run_menu : Client → List Input → Session
  run_menu c [] = waiting c []
  run_menu c (input ∷ inputs) = elim (menu_round c input) [
    | again shown c' ↦ showing shown (run_menu c' inputs)
    | quit ↦ exited c []
    | crashed ↦ panicked
  ]

-- How the program has ended, or how far its menu has come.
pub data Progress : Type 0 where
  ended : Fatal → Progress
  at_menu : Session → Progress

unfoldable pub ui_main :
    Primitives
    → Files
    → (Str → Str → ℤ → Option TransactionStatus)
    → List Str
    → List Input
    → Progress
ui_main p files answer args inputs = elim (start_ui p files args) [
  | fatal e ↦ ended e
  | started s ↦ at_menu (run_menu p answer s.key_map s.miner_ips s.client inputs)
]
