-- ===== src/Examples/Node.antt =====
-- A node on the data of the tests.
use nakamato_blockchain.Base.{
  some, ℕ, suc, ◌≤◌, ◌≡◌, refl, true, false, none, Option, List, [], ◌∷◌, ◌++◌, arith, length, leb,
  ℕ_discrete,
}
use nakamato_blockchain.Base.Int
use nakamato_blockchain.Base.Int.{ℤ, pos, wrap64, ◌+ℤ◌, ◌-ℤ◌, ℤ-discrete, leb_ℤ}
use nakamato_blockchain.Base.Text.{Str, Str-discrete, codes}
use nakamato_blockchain.Types.{Block, ok}
use nakamato_blockchain.Encoding.Hex.{digit_value, hex_digit, encode}
use nakamato_blockchain.Encoding.BigInt
use nakamato_blockchain.Encoding.BigInt.{bytes, digits_from, set_bytes, set_bytes_from}
use nakamato_blockchain.Crypto
use nakamato_blockchain.Crypto.{
  parse_private_key, parse_public_key, sign, verify_signature, key_to_addr,
}
use nakamato_blockchain.Block
use nakamato_blockchain.Block.{
  join, transaction_hashes, calculate_content_hash, calculate_hash, verify_hash,
}
use nakamato_blockchain.UtxoSet
use nakamato_blockchain.Blockchain
use nakamato_blockchain.Blockchain.{any_hash, any_block, get_transaction_depth, depth_from}
use nakamato_blockchain.TransactionPool.{new_transaction_pool}
use nakamato_blockchain.PeerManager.{new_peer_manager, is_blacklisted}
use nakamato_blockchain.Server.{BlockchainServer}
use nakamato_blockchain.Server.Submission.{after_blocks, after_blocks-invalid}
use nakamato_blockchain.Server.Mining.{found}
use nakamato_blockchain.Server.Incoming.{get_transaction_status, get_transaction_status-confirmed}
use nakamato_blockchain.Examples
use nakamato_blockchain.Examples.{
  toy, digest, home, coin, output, pay, one_coin, block_of, hash_at, empty_block, pay_block, start,
}

abbrev pub node : BlockchainServer
node = record {
  blockchain = start;
  tx_pool = new_transaction_pool;
  mining = true;
  cancel_func = some 0;
  contexts = 1;
  cancelled = [];
  peer_manager = new_peer_manager;
  mode = pos 0;
}

abbrev nobody : ℕ → Str → Option Block
nobody client hash = none

abbrev bad_block : Block
bad_block = block_of 1 [] [] [] []

bad_block-invalid : Block.verify toy bad_block ≡ false
unfolding Block.verify calculate_content_hash Crypto.hash_of transaction_hashes join encode
    hex_digit Str-discrete ℕ_discrete calculate_hash
bad_block-invalid = refl

after_blocks-invalid_example :
    ((after_blocks toy nobody node (codes "a") (bad_block ∷ bad_block ∷ bad_block ∷ [])).blockchain
      ≡ start)
    × (is_blacklisted
          (after_blocks toy nobody node
            (codes "a")
            (bad_block ∷ bad_block ∷ bad_block ∷ [])).peer_manager
          (codes "a")
        ≡ leb 3 (length (bad_block ∷ bad_block ∷ bad_block ∷ [])))
after_blocks-invalid_example =
    after_blocks-invalid toy nobody node (codes "a") (bad_block ∷ bad_block ∷ bad_block ∷ [])
      (λ e. cc) refl (bad_block-invalid, (bad_block-invalid, (bad_block-invalid, tt)))

added : (Blockchain.add_block toy start (found (empty_block 1 []) (hash_at 1))).0 ≡ ok tt
unfolding Blockchain.add_block Blockchain.check_link UtxoSet.add_block UtxoSet.check_transactions
    UtxoSet.for_each Block.verify calculate_content_hash calculate_hash Crypto.hash_of verify_hash
    Crypto.set_string transaction_hashes join encode hex_digit BigInt.parse_hex
    BigInt.parse_unsigned BigInt.parse_digits digit_value wrap64 ◌+ℤ◌ Str-discrete ℤ-discrete
    ℕ_discrete
added = refl

abbrev paid_node : BlockchainServer
paid_node = record node {
  blockchain = record { blocks = Examples.genesis ∷ pay_block ∷ []; utxo_set = one_coin };
}

confirmed : get_transaction_status paid_node (codes "bb") (pos 1) ≡ true
unfolding get_transaction_status get_transaction_depth depth_from any_hash Str-discrete ℕ_discrete
    Int.wrap32
confirmed = refl

get_transaction_status-confirmed_example :
    (older : List Block) × (b : Block) × (newer : List Block) × (paid_node.blockchain.blocks
      ≡ older ++ b ∷ newer)
    × (any_hash (codes "bb") b.content.transactions ≡ true)
    × (1 ≤ suc (length newer))
get_transaction_status-confirmed_example =
    get_transaction_status-confirmed paid_node (codes "bb") 1 (omega arith) (omega arith) confirmed
