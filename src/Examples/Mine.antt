-- ===== src/Examples/Mine.antt =====
-- Mining on the data of the tests.
use nakamato_blockchain.Base.{ℕ, ◌≡◌, refl, true, some, none, List, [], ◌∷◌, arith, ℕ_discrete}
use nakamato_blockchain.Base.Int.{ℤ, pos, ◌+ℤ◌, wrap64, ℤ-discrete}
use nakamato_blockchain.Base.Text.{Str-discrete, codes}
use nakamato_blockchain.Base.Dict.{lookup}
use nakamato_blockchain.Types.{Block, Utxo-discrete, ok, err, mining_not_active, panic}
use nakamato_blockchain.Encoding.Hex.{decode, digit_value, hex_digit, encode}
use nakamato_blockchain.Encoding.BigInt.{parse_hex, parse_unsigned, parse_digits}
use nakamato_blockchain.Crypto
use nakamato_blockchain.Crypto.{key_to_addr, parse_public_key, set_string, hash_of}
use nakamato_blockchain.Transaction
use nakamato_blockchain.Transaction.{
  verify_inputs, verify_outputs, verify_content, all_from, leftover_from,
}
use nakamato_blockchain.Block
use nakamato_blockchain.Block.{
  join, transaction_hashes, calculate_content_hash, calculate_hash, verify_hash, new_block,
}
use nakamato_blockchain.Difficulty.{get_difficulty}
use nakamato_blockchain.UtxoSet
use nakamato_blockchain.UtxoSet.{check_transaction, check_inputs, check_utxo, any_equal}
use nakamato_blockchain.Blockchain.{Blockchain, get_last_block, create_block, get_last_100_hashes}
use nakamato_blockchain.TransactionPool.{get_up_to_n_transactions, choose}
use nakamato_blockchain.Server.{broadcast_block}
use nakamato_blockchain.Server.Mining.{next, found, start_mining, stop_mining}
use nakamato_blockchain.Server.Search.{Try, with_nonce, search}
use nakamato_blockchain.Server.Search.Ready.{HeadersMarshalled, IsSolved}
use nakamato_blockchain.Server.Search.Found.{search-verify, search_finds}
use nakamato_blockchain.Server.Turns.{mine_turn}
use nakamato_blockchain.Server.Round.{mine_turn_publishes}
use nakamato_blockchain.Server.Contexts.{Among}
use nakamato_blockchain.Server.Tasks.{Control, Steps, still, worker, idle}
use nakamato_blockchain.Server.Control.{start_mining-Steps, restart_escapes, restart_panics}
use nakamato_blockchain.Examples
use nakamato_blockchain.Examples.{
  toy, digest, home, coin, output, pay, one_coin, block_of, hash_at, start,
}
use nakamato_blockchain.Examples.Money.{add_pay}
use nakamato_blockchain.Examples.Chain.{start-IsChain}
use nakamato_blockchain.Examples.Node.{node}

abbrev pub draft : Block
draft = block_of 1 [] (encode (digest (codes "bb"))) [] (pay ∷ [])

pub created : create_block toy (pos 0) start (pay ∷ []) ≡ ok draft
unfolding create_block get_difficulty new_block calculate_content_hash hash_of transaction_hashes
    join encode hex_digit Transaction.verify Transaction.verify_signature Crypto.verify_signature
    parse_public_key decode digit_value verify_content verify_inputs verify_outputs all_from
    leftover_from key_to_addr wrap64 ◌+ℤ◌ Str-discrete ℤ-discrete ℕ_discrete
created = refl

pub toy-HeadersMarshalled : HeadersMarshalled toy
toy-HeadersMarshalled h = (_, refl)

abbrev pub try_seven : Try
try_seven = record { drawn = 7; server = node; views = [] }

pub seven-IsSolved : IsSolved toy (with_nonce (pos 7) draft)
unfolding verify_hash calculate_hash hash_of set_string encode hex_digit parse_hex parse_unsigned
    parse_digits digit_value
seven-IsSolved = refl

pub found_first : search toy draft (try_seven ∷ []) ≡ some (ok (draft, hash_at 1))
unfolding search verify_hash calculate_hash hash_of set_string encode hex_digit parse_hex
    parse_unsigned parse_digits digit_value
found_first = refl

search-verify_example : Block.verify toy (found draft (hash_at 1)) ≡ true
search-verify_example =
    search-verify toy (pos 0) start (pay ∷ []) draft draft (hash_at 1) (try_seven ∷ [])
      toy-HeadersMarshalled created found_first

search_finds_example :
    (n : ℤ) × (hash : List ℕ) × (search toy draft (try_seven ∷ [])
      ≡ some (ok (with_nonce n draft, hash)))
    × (Block.verify toy (found (with_nonce n draft) hash) ≡ true)
search_finds_example =
    search_finds toy (pos 0) start (pay ∷ []) draft [] [] try_seven toy-HeadersMarshalled created
      ((Examples.genesis, unfold get_last_block in refl, refl), tt) seven-IsSolved

pub chosen : get_up_to_n_transactions toy (pos 1) one_coin (pay ∷ []) ≡ pay ∷ []
unfolding get_up_to_n_transactions choose check_transaction check_inputs check_utxo any_equal
    UtxoSet.get lookup Transaction.verify Transaction.verify_signature Crypto.verify_signature
    parse_public_key decode digit_value verify_content verify_inputs verify_outputs all_from
    leftover_from key_to_addr wrap64 ◌+ℤ◌ Str-discrete ℤ-discrete ℕ_discrete Utxo-discrete
chosen = refl

mine_turn_publishes_example :
    (c : Block) × (c.content.transactions ≡ pay ∷ [])
    × (mine_turn toy
          (record { server = node; now = pos 0; order = pay ∷ [] } ∷ [])
          (try_seven ∷ [])
          node
        ≡ (let chain_after : Blockchain = record {
          blocks = Examples.genesis ∷ c ∷ [];
          utxo_set = (UtxoSet.add_transaction toy one_coin pay).1;
        } in
            some (record {
              result = ok next;
              server = record node { blockchain = chain_after };
              sent = broadcast_block node.peer_manager c (get_last_100_hashes chain_after);
            })))
mine_turn_publishes_example =
    mine_turn_publishes toy node pay draft (pos 0) start-IsChain (omega arith) created add_pay
      (pay ∷ []) [] [] [] try_seven refl chosen toy-HeadersMarshalled (refl, tt) seven-IsSolved

-- A node that has been told to mine.
abbrev mining_node : Control
mining_node = record { server = node; tasks = worker 0 ∷ [] }

mining-Steps : Steps (idle node) mining_node
unfolding start_mining
mining-Steps = start_mining-Steps (idle node) (idle node) still refl

restart_escapes_example :
    (d : Control) × Steps mining_node d
    × Among (worker 1) d.tasks
    × ¬ Among 1 d.server.cancelled
    × (d.server.cancel_func ≡ none)
    × (stop_mining d.server ≡ (err mining_not_active, d.server))
restart_escapes_example = restart_escapes node mining_node mining-Steps 0 [] [] refl refl refl

restart_panics_example :
    (d : Control) × Steps mining_node d
    × Among (worker 1) d.tasks
    × ¬ Among 1 d.server.cancelled
    × (d.server.mining ≡ true)
    × (d.server.cancel_func ≡ none)
    × (stop_mining d.server ≡ (panic, d.server))
restart_panics_example = restart_panics node mining_node mining-Steps 0 [] [] refl refl refl
