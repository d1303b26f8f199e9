-- ===== src/Examples/Programs.antt =====
-- The programs, on the data of the tests.
use nakamato_blockchain.Base.{
  arith, ℕ, ◌≤◌, All, ◌≡◌, ◌⊎◌, refl, true, false, Option, none, some, List, [], ◌∷◌, ℕ_discrete,
}
use nakamato_blockchain.Base.Int.{ℤ, pos}
use nakamato_blockchain.Base.Text.{Str, Str-discrete, codes}
use nakamato_blockchain.Types.{ok}
use nakamato_blockchain.Base.Dict.{insert, lookup}
use nakamato_blockchain.Crypto.{key_to_addr}
use nakamato_blockchain.UtxoSet.{add_utxo, get, new_utxo_set}
use nakamato_blockchain.Convert.{
  TransactionStatus, convert_block_to_grpc, convert_transaction_to_grpc,
}
use nakamato_blockchain.Fork.Limits.{IsLinked}
use nakamato_blockchain.Client.{
  Client, read_key_map, key_map_from, populate_initial_utxo_set, populate_entries, populate_entry,
}
use nakamato_blockchain.Client.Rounds.{Advanced}
use nakamato_blockchain.Client.Start.{
  Files, Fatal, Started, started, start_client, client_main, ended, running, read_miner_ips,
  miner_ips_from,
}
use nakamato_blockchain.Client.Running.{client_main_advances}
use nakamato_blockchain.Client.Ui.Menu
use nakamato_blockchain.Client.Ui.Menu.{
  Input, Shown, waiting, exited, run_menu, at_menu, start_ui, ui_main,
}
use nakamato_blockchain.Client.Ui.Session.{ui_main_advances}
use nakamato_blockchain.Generator.{UtxoDraw, initial_utxos_main, read_keys, with_draws}
use nakamato_blockchain.Generator.Programs.{programs_agree}
use nakamato_blockchain.Miner.{utxos_of, HttpRequest, serve_requests, miner_main}
use nakamato_blockchain.Server.Contexts.{Among, IsSteady}
use nakamato_blockchain.Miner.Requests.{mining_after, serve_requests_effect}
use nakamato_blockchain.UtxoSet.Supply.{supply}
use nakamato_blockchain.Transaction.Value.{value}
use nakamato_blockchain.Miner.Money.{HasInt64Amounts, miner_main-supply}
use nakamato_blockchain.Miner.Events.{
  Event, transaction_came, turn_ended, request_came, block_came, after_events,
}
use nakamato_blockchain.Miner.Lifetime.{miner_main-IsIntact}
use nakamato_blockchain.Server.Pool.{IsPooled}
use nakamato_blockchain.Examples
use nakamato_blockchain.Examples.{toy, empty_block, pay}
use nakamato_blockchain.Examples.Node.{node}
use nakamato_blockchain.Examples.Setup.{
  no_ports, no_answer, my_node, my_entries, my_pair, my_draw, my_start, my_generated,
}

-- Every file of keys, of UTXOs and of miners is this one.
abbrev my_files : Files
my_files = record {
  keys = λ _. some (my_pair ∷ []);
  utxos = λ _. some my_entries;
  scans = λ _. some (record { lines = codes "m" ∷ []; failed = false });
}

abbrev my_args : List Str
my_args = codes "client" ∷ codes "u" ∷ codes "k" ∷ codes "m" ∷ []

client_main_advances_example :
    ((e : Fatal) × (client_main toy my_files my_args ([] ∷ []) ≡ ended e))
    ⊎ ((s : Started) × (c : Client) × (start_client toy my_files my_args ≡ started s)
        × (client_main toy my_files my_args ([] ∷ []) ≡ running c)
        × Advanced s.miner_ips s.client c)
client_main_advances_example = client_main_advances toy my_files my_args ([] ∷ [])

abbrev no_status : Str → Str → ℤ → Option TransactionStatus
no_status _ _ _ = none

abbrev typed : Str → Input
typed choice = record {
  choice = choice;
  request = record { sender = codes "key"; recipient = codes "you"; amount = codes "4" };
  chance = record { now = pos 1; random = 0; miner = 0; delivered = true };
  tx_hash = codes "bb";
  pub_key = codes "key";
}

abbrev my_inputs : List Input
my_inputs = typed (codes "1") ∷ typed (codes "4") ∷ []

ui_main_advances_example :
    ((e : Fatal) × (ui_main toy my_files no_status my_args my_inputs ≡ Menu.ended e))
    ⊎ ((s : Started) × (c : Client) × (shown : List Shown) × (start_ui toy my_files my_args
          ≡ started s)
        × ((ui_main toy my_files no_status my_args my_inputs ≡ at_menu (waiting c shown))
            ⊎ (ui_main toy my_files no_status my_args my_inputs ≡ at_menu (exited c shown)))
        × Advanced s.miner_ips s.client c)
ui_main_advances_example = ui_main_advances toy my_files no_status my_args my_inputs

abbrev my_client : Client
my_client = record { utxo_set = Examples.one_coin; sent = [] }

abbrev stop_request : HttpRequest
stop_request = record { path = codes "/stopmining"; is_post = true; body = none }

abbrev mine_request : HttpRequest
mine_request = record { path = codes "/mineblocks"; is_post = true; body = none }

node-IsSteady : IsSteady node
node-IsSteady = record {
  held = λ _. (0, refl, λ k. k);
  given = λ i e. (let same : 0 ≡ i = cc e in omega (arith, same));
  below = λ i k. absurd k;
}

serve_requests_effect_example :
    let after = serve_requests no_ports no_answer node (stop_request ∷ mine_request ∷ []) in
    (after.blockchain ≡ node.blockchain)
    × (after.tx_pool ≡ node.tx_pool)
    × (after.mode ≡ node.mode)
    × (after.mining ≡ mining_after node.mining (stop_request ∷ mine_request ∷ []))
    × (after.mining ≡ true → (i : ℕ) × (after.cancel_func ≡ some i) × ¬ Among i after.cancelled)
    × (after.peer_manager.blacklisted ≡ node.peer_manager.blacklisted)
    × (after.peer_manager.invalid_count ≡ node.peer_manager.invalid_count)
serve_requests_effect_example =
    serve_requests_effect no_ports no_answer node (stop_request ∷ mine_request ∷ []) node-IsSteady

abbrev zero_mode : Str → ℤ
zero_mode _ = pos 0

abbrev miner_args : List Str
miner_args = codes "miner" ∷ codes "u" ∷ codes "8080" ∷ codes "50051" ∷ codes "0" ∷ []

my_miner :
    miner_main no_ports no_answer toy zero_mode my_files.utxos (pos 0) miner_args ≡ some my_node
unfolding miner_main
my_miner = my_start

abbrev my_events : List Event
my_events =
    request_came stop_request
    ∷ transaction_came (convert_transaction_to_grpc pay)
    ∷ block_came (λ _ _. none) (some (convert_block_to_grpc (empty_block 1 []))) [] (codes "a")
    ∷ []

miner_main-IsIntact_example :
    let after = after_events toy no_ports no_answer my_node my_events in
    (IsLinked toy after.blockchain.blocks ⊎ (after.blockchain.blocks ≡ []))
    × All (IsPooled toy) after.tx_pool.transactions
miner_main-IsIntact_example =
    miner_main-IsIntact toy no_ports no_answer zero_mode my_files.utxos (pos 0) miner_args my_node
      my_events my_miner

abbrev my_draws : ℕ → ℕ → UtxoDraw
my_draws _ = my_draw

made :
    initial_utxos_main toy (some (my_pair ∷ [])) my_draws (pos 1) (pos 10) (pos 5) ≡ ok my_entries
unfolding initial_utxos_main read_keys with_draws
made = my_generated

abbrev my_started : Started
my_started = record {
  key_map = (codes "key", codes "secret") ∷ [];
  miner_ips = codes "m" ∷ [];
  client = record { utxo_set = my_node.blockchain.utxo_set; sent = [] };
}

begun : start_client toy my_files my_args ≡ started my_started
unfolding start_client populate_initial_utxo_set populate_entries populate_entry read_key_map
    key_map_from read_miner_ips miner_ips_from insert lookup add_utxo get key_to_addr new_utxo_set
    Str-discrete ℕ_discrete
begun = refl

programs_agree_example : my_started.client.utxo_set ≡ my_node.blockchain.utxo_set
programs_agree_example =
    programs_agree no_ports no_answer toy zero_mode my_files (pos 0) (pos 1) (pos 10) (pos 5)
      (some (my_pair ∷ [])) my_draws my_entries (codes "miner") (codes "u") (codes "8080")
      (codes "50051") (codes "0") [] (codes "client") (codes "k") (codes "m") [] my_node my_started
      made refl my_miner begun

-- A turn of mining that has found no transaction yet.
abbrev quiet_events : List Event
quiet_events = turn_ended [] [] ∷ my_events

small_amounts : All HasInt64Amounts quiet_events
unfolding convert_block_to_grpc
small_amounts = ((tt, tt), (tt, (tt, (tt, tt))))

miner_main-supply_example :
    supply (after_events toy no_ports no_answer my_node quiet_events).blockchain.utxo_set
    ≤ value (utxos_of my_entries)
miner_main-supply_example =
    miner_main-supply toy no_ports no_answer zero_mode my_files.utxos (pos 0) (codes "miner")
      (codes "u") (codes "8080") (codes "50051") (codes "0") [] my_entries my_node quiet_events refl
      my_miner small_amounts
