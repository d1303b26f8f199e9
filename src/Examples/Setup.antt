-- ===== src/Examples/Setup.antt =====
-- The generated keys and first UTXOs on the data of the tests.
use nakamato_blockchain.Base.{
  ℕ, ◌≡◌, refl, true, none, some, Option, List, [], ◌∷◌, arith, ℕ_discrete,
}
use nakamato_blockchain.Base.Int.{pos, wrap64, ◌+ℤ◌, ◌-ℤ◌}
use nakamato_blockchain.Base.Text.{Str, Str-discrete, codes}
use nakamato_blockchain.Types.{ok}
use nakamato_blockchain.Encoding.Hex.{encode, hex_digit}
use nakamato_blockchain.Crypto.{key_to_addr, hash_of}
use nakamato_blockchain.Block.{join, transaction_hashes, calculate_content_hash, new_block}
use nakamato_blockchain.Difficulty.{get_difficulty}
use nakamato_blockchain.Blockchain.{new_blockchain}
use nakamato_blockchain.TransactionPool.{new_transaction_pool}
use nakamato_blockchain.PeerManager.{new_peer_manager, add_peers}
use nakamato_blockchain.Base.Dict.{lookup, insert}
use nakamato_blockchain.UtxoSet.{new_utxo_set, add_utxo, add_utxos, get}
use nakamato_blockchain.Server.{BlockchainServer, new_blockchain_server}
use nakamato_blockchain.Server.Mining.{start_mining}
use nakamato_blockchain.Client.{UtxoEntry, KeyPair}
use nakamato_blockchain.Miner.{utxos_of, load_utxos, start_node}
use nakamato_blockchain.Generator.{
  UtxoDraw, int63n, generate_tx_id, generate_utxos, generate_initial_utxos,
}
use nakamato_blockchain.Generator.FirstUtxos.{AreEntriesOf, generate_initial_utxos-AreEntriesOf}
use nakamato_blockchain.Examples
use nakamato_blockchain.Examples.{toy, home}

abbrev pub my_pair : KeyPair
my_pair = record { public_key = codes "key"; private_key = codes "secret" }

abbrev pub my_draw : ℕ → UtxoDraw
my_draw _ = record { amount = 7; id_bytes = 1 ∷ 2 ∷ [] }

generate_initial_utxos-AreEntriesOf_example :
    (es : List UtxoEntry) × (generate_initial_utxos toy
        ((my_pair, my_draw) ∷ [])
        (pos 1)
        (pos 10)
        (pos 5)
      ≡ ok es)
    × AreEntriesOf toy (pos 1) 5 10 ((my_pair, my_draw) ∷ []) es
generate_initial_utxos-AreEntriesOf_example =
    generate_initial_utxos-AreEntriesOf 5 10 (omega arith) (omega arith) (omega arith) toy (pos 1)
      ((my_pair, my_draw) ∷ [])

abbrev pub my_entries : List UtxoEntry
my_entries =
    record {
      public_key = codes "key";
      utxos = record { tx_id = codes "0102"; index = pos 0; amount = pos 6; address = home } ∷ [];
    }
    ∷ []

pub my_generated :
    generate_initial_utxos toy ((my_pair, my_draw) ∷ []) (pos 1) (pos 10) (pos 5) ≡ ok my_entries
unfolding generate_initial_utxos generate_utxos int63n generate_tx_id encode hex_digit key_to_addr
    wrap64 ◌+ℤ◌ ◌-ℤ◌
my_generated = refl

abbrev pub no_ports : Str → Option (Str × Str)
no_ports _ = none

abbrev pub no_answer : Str → Option ℕ
no_answer _ = none

abbrev pub my_node : BlockchainServer
my_node = record {
  blockchain = record {
    blocks = Examples.genesis ∷ [];
    utxo_set = record {
      utxos =
          (
            home,
            record { tx_id = codes "0102"; index = pos 0; amount = pos 6; address = home } ∷ [],
          )
          ∷ [];
    };
  };
  tx_pool = record { transactions = [] };
  mining = true;
  cancel_func = some 0;
  contexts = 1;
  cancelled = [];
  peer_manager = record { peer_clients = []; blacklisted = []; invalid_count = [] };
  mode = pos 0;
}

pub my_start : start_node no_ports no_answer toy (pos 0) (some my_entries) (pos 0) [] ≡ some my_node
unfolding start_node load_utxos utxos_of new_blockchain_server new_blockchain get_difficulty
    new_block calculate_content_hash hash_of transaction_hashes join encode hex_digit add_utxos
    add_utxo get insert lookup new_utxo_set start_mining new_transaction_pool new_peer_manager
    add_peers Str-discrete ℕ_discrete
my_start = refl
