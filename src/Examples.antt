-- ===== src/Examples.antt =====
-- The data of the tests: primitives that compute, coins, transactions and blocks. In `toy` a digest is
-- 31 zero bytes and the sum of the input modulo 256, base64 is the bytes themselves, every text is a
-- key, and every signature is good.
pub mod Money
pub mod Chain
pub mod Parts
pub mod Node
pub mod Mine
pub mod Gossip
pub mod Consensus
pub mod Programs
pub mod Wallet
pub mod Payment
pub mod Setup
pub mod Clock
use nakamato_blockchain.Base.{
  ℕ, zero, suc, ◌+◌, ◌%◌, Bool, true, false, Option, none, some, List, [], ◌∷◌, ◌++◌, replicate,
}
use nakamato_blockchain.Base.Int.{ℤ, pos, pos_part}
use nakamato_blockchain.Base.Text.{Str, codes}
use nakamato_blockchain.Base.Dict.{Dict}
use nakamato_blockchain.Types.{
  Utxo, TransactionContent, Transaction, BlockHeader, BlockContent, Block,
}
use nakamato_blockchain.Encoding.Hex.{encode}
use nakamato_blockchain.Crypto.{Primitives, Hashable, text, block_header, transaction}
use nakamato_blockchain.UtxoSet.{UtxoSet}
use nakamato_blockchain.Difficulty.{initial_difficulty}
use nakamato_blockchain.Blockchain.{Blockchain}

abbrev sum : List ℕ → ℕ
sum [] = 0
sum (n ∷ ns) = n + sum ns

abbrev toy_json : Hashable → Option (List ℕ)
toy_json (text s) = some s
toy_json (block_header h) = some (pos_part h.height ∷ pos_part h.nonce ∷ pos_part h.timestamp ∷ [])
toy_json (transaction tx) = some (7 ∷ [])

abbrev pub digest : List ℕ → List ℕ
digest bs = replicate 31 0 ++ (sum bs % 256) ∷ []

abbrev pub toy : Primitives
toy = record {
  PrivateKey = ℕ;
  PublicKey = ℕ;
  marshal = toy_json;
  sha256 = digest;
  base64_encode = λ bs. bs;
  base64_decode = λ s. some s;
  parse_ec_private_key = λ _. some 1;
  parse_pkix_public_key = λ _. some (some 1);
  ecdsa_sign = λ random _ _. some (random + 300, 1000);
  ecdsa_verify = λ _ _ _ _. true;
  unparsed = λ _. pos 0;
}

-- The address of every key.
abbrev pub home : Str
home = replicate 21 0

abbrev pub coin : ℕ → ℕ → Utxo
coin index amount = record {
  tx_id = codes "aa";
  index = pos index;
  amount = pos amount;
  address = home;
}

abbrev pub output : ℕ → ℕ → Utxo
output index amount = record { tx_id = []; index = pos index; amount = pos amount; address = home }

abbrev pub spends : Str → List Utxo → List Utxo → Transaction
spends hash inputs outputs = record {
  content = record {
    input_utxos = inputs;
    output_utxos = outputs;
    sender_pub_key = codes "key";
    timestamp = pos 5;
  };
  signature = codes "0305";
  hash = hash;
}

-- Pays 4 and 6 from a coin of 10.
abbrev pub pay : Transaction
pay = spends (codes "bb") (coin 0 10 ∷ []) (output 0 4 ∷ output 1 6 ∷ [])

-- Spends the same coin.
abbrev pub pay_again : Transaction
pay_again = spends (codes "cc") (coin 0 10 ∷ []) (output 0 10 ∷ [])

abbrev pub one_coin : UtxoSet
one_coin = record { utxos = (home, coin 0 10 ∷ []) ∷ [] }

abbrev pub block_of : ℕ → Str → Str → Str → List Transaction → Block
block_of height previous_hash content_hash hash txs = record {
  header = record {
    timestamp = pos 0;
    previous_hash = previous_hash;
    content_hash = content_hash;
    height = pos height;
    difficulty = initial_difficulty;
    nonce = pos 0;
  };
  content = record { transactions = txs };
  hash = hash;
}

abbrev pub genesis : Block
genesis = block_of 0 [] (encode (digest [])) [] []

-- The hash of the block at a height.
abbrev pub hash_at : ℕ → Str
hash_at height = encode (digest (height ∷ []))

abbrev pub empty_block : ℕ → Str → Block
empty_block height previous_hash =
    block_of height previous_hash (encode (digest [])) (hash_at height) []

abbrev pub pay_block : Block
pay_block = block_of 1 [] (encode (digest (codes "bb"))) (hash_at 1) (pay ∷ [])

abbrev pub start : Blockchain
start = record { blocks = genesis ∷ []; utxo_set = one_coin }
