-- ===== src/Examples/Chain.antt =====
-- Blocks, the chain and forks on the data of the tests.
use nakamato_blockchain.Base.{
  ℕ, ◌-◌, ◌^◌, ◌<◌, ◌≡◌, ◌≢◌, ◌↔◌, refl, true, some, Option, List, [], ◌∷◌, ◌++◌, arith, ℕ_discrete,
  replicate,
}
use nakamato_blockchain.Base.Int.{pos}
use nakamato_blockchain.Base.Text.{Str, Str-discrete, codes}
use nakamato_blockchain.Base.Dict.{lookup, insert}
use nakamato_blockchain.Types.{Block, ok, err, replace_failed}
use nakamato_blockchain.Encoding.Hex.{digit_value, hex_digit, encode}
use nakamato_blockchain.Encoding.BigInt.{set_bytes, parse_hex, parse_unsigned, parse_digits}
use nakamato_blockchain.Crypto.{hash_of, block_header, set_string}
use nakamato_blockchain.Block
use nakamato_blockchain.Block.{
  join, transaction_hashes, calculate_content_hash, calculate_hash, verify_hash, new_block,
}
use nakamato_blockchain.Block.Validity.{IsValid, verify-IsValid}
use nakamato_blockchain.Block.Work.{HasDigests, verify-work}
use nakamato_blockchain.Difficulty.{get_difficulty, initial_difficulty}
use nakamato_blockchain.UtxoSet.{add_utxos, new_utxo_set}
use nakamato_blockchain.Blockchain
use nakamato_blockchain.Blockchain.{
  Blockchain, new_blockchain, add_block, get_block_by_height, rollback_to_hash, get_last_100_hashes,
}
use nakamato_blockchain.Blockchain.Growth.{IsChain, genesis, Appended, add_block-IsChain}
use nakamato_blockchain.Blockchain.Audit.{add_blocks, verify-new_blockchain}
use nakamato_blockchain.Fork.{find_common_ancestor, hash_to_height, best_height, handle_fork}
use nakamato_blockchain.Fork.Switch.{Switch, handle_fork_cases}
use nakamato_blockchain.Fork.Loss.{handle_fork_loses}
use nakamato_blockchain.Examples
use nakamato_blockchain.Examples.{
  toy, digest, home, coin, output, pay, one_coin, block_of, hash_at, empty_block, pay_block, start,
}

pub toy-HasDigests : HasDigests toy
toy-HasDigests json = (ground arith, omega arith)

next_block : Block.verify toy (empty_block 1 []) ≡ true
unfolding Block.verify calculate_content_hash calculate_hash hash_of verify_hash set_string
    transaction_hashes join encode hex_digit parse_hex parse_unsigned parse_digits digit_value
    Str-discrete ℕ_discrete
next_block = refl

verify-IsValid_example :
    (Block.verify toy (empty_block 1 []) ≡ true) ↔ IsValid toy (empty_block 1 [])
verify-IsValid_example = verify-IsValid toy (empty_block 1 [])

pub initial-parsed : parse_hex initial_difficulty ≡ some (pos (16 ^ 59 - 1))
unfolding parse_hex parse_unsigned parse_digits digit_value
initial-parsed = refl

verify-work_example :
    (json : List ℕ) × (toy.marshal (block_header (empty_block 1 []).header) ≡ some json)
    × (hash_at 1 ≡ encode (toy.sha256 json))
    × (set_bytes (toy.sha256 json) < 16 ^ 59 - 1)
verify-work_example =
    verify-work toy (empty_block 1 []) (16 ^ 59 - 1) toy-HasDigests initial-parsed next_block

pub start-IsChain : IsChain toy start.blocks
start-IsChain = genesis Examples.genesis refl

add_block-IsChain_example :
    IsChain toy (add_block toy start (empty_block 1 [])).1.blocks
    × Appended start (empty_block 1 []) (add_block toy start (empty_block 1 []))
add_block-IsChain_example = add_block-IsChain toy start (empty_block 1 []) start-IsChain

begun :
    new_blockchain toy (pos 0) []
    ≡ ok (record { blocks = Examples.genesis ∷ []; utxo_set = record { utxos = [] } })
unfolding new_blockchain get_difficulty new_block calculate_content_hash hash_of transaction_hashes
    join encode add_utxos new_utxo_set
begun = refl

verify-new_blockchain_example :
    Blockchain.verify toy (
      add_blocks toy
        (record { blocks = Examples.genesis ∷ []; utxo_set = record { utxos = [] } })
        (empty_block 1 [] ∷ []))
    ≢ ok true
verify-new_blockchain_example =
    verify-new_blockchain toy (pos 0) []
      (record { blocks = Examples.genesis ∷ []; utxo_set = record { utxos = [] } })
      (empty_block 1 [] ∷ []) toy-HasDigests begun

-- Answers any request with the block.
abbrev answers : Block → Str → Option Block
answers b hash = some b

handle_fork_cases_example :
    Switch toy start
      ([] ∷ hash_at 1 ∷ [])
      (handle_fork toy start ([] ∷ hash_at 1 ∷ []) (answers (empty_block 1 [])))
handle_fork_cases_example =
    handle_fork_cases toy start ([] ∷ hash_at 1 ∷ []) (answers (empty_block 1 []))

abbrev long : Blockchain
long = record { blocks = replicate 100 Examples.genesis; utxo_set = one_coin }

common :
    find_common_ancestor start ([] ++ Examples.genesis.hash ∷ hash_at 1 ∷ [])
    ≡ some Examples.genesis
unfolding find_common_ancestor hash_to_height best_height lookup insert Str-discrete ℕ_discrete
    encode
common = refl

-- A valid block whose parent is nowhere.
abbrev orphan : Block
orphan = empty_block 1 (codes "ff")

orphan-verified : Block.verify toy orphan ≡ true
unfolding Block.verify calculate_content_hash calculate_hash hash_of verify_hash set_string
    transaction_hashes join encode hex_digit parse_hex parse_unsigned parse_digits digit_value
    Str-discrete ℕ_discrete
orphan-verified = refl

handle_fork_loses_example :
    handle_fork toy start ([] ++ Examples.genesis.hash ∷ hash_at 1 ∷ []) (answers orphan)
    ≡ (err replace_failed, record start { blocks = [] })
handle_fork_loses_example =
    handle_fork_loses toy start [] (hash_at 1) (answers orphan) Examples.genesis orphan common
      (unfold get_last_100_hashes in omega arith) (unfold encode in λ e. cc) refl orphan-verified
      ((λ e. cc), tt)
