-- ===== src/Convert.antt =====
-- internal/server/convert.go, with the messages of proto/blockchain.proto. A message field that holds
-- a message is a pointer and may be nil; the conversion of a nil one panics.
pub mod RoundTrip
use nakamato_blockchain.Base.{Bool, Option, none, some, List, [], ◌∷◌, map}
use nakamato_blockchain.Base.Int.{ℤ, wrap32}
use nakamato_blockchain.Base.Text.{Str}
use nakamato_blockchain.Types.{
  Utxo, TransactionContent, Transaction, BlockHeader, BlockContent, Block, Result, ok, err, panic,
}

pub record GrpcUtxo : Type 0 where
  pub tx_hash : Str
  pub index : ℤ
  pub amount : ℤ
  pub address : Str

pub record GrpcTransaction : Type 0 where
  pub inputs : List GrpcUtxo
  pub outputs : List GrpcUtxo
  pub timestamp : ℤ
  pub signature : Str
  pub hash : Str
  pub senderpubkey : Str

pub record GrpcBlockHeader : Type 0 where
  pub timestamp : ℤ
  pub previous_hash : Str
  pub content_hash : Str
  pub height : ℤ
  pub difficulty : Str
  pub nonce : ℤ

pub record GrpcBlockContent : Type 0 where
  pub transactions : List GrpcTransaction

pub record GrpcBlock : Type 0 where
  pub header : Option GrpcBlockHeader
  pub content : Option GrpcBlockContent
  pub hash : Str

-- A response to `GetTransactionStatus`.
pub record TransactionStatus : Type 0 where
  pub confirmed : Bool
  pub error : Str

unfoldable pub convert_utxo_to_grpc : Utxo → GrpcUtxo
convert_utxo_to_grpc u = record {
  tx_hash = u.tx_id;
  index = wrap32 u.index;
  amount = u.amount;
  address = u.address;
}

unfoldable pub convert_transaction_to_grpc : Transaction → GrpcTransaction
convert_transaction_to_grpc tx = record {
  inputs = map convert_utxo_to_grpc tx.content.input_utxos;
  outputs = map convert_utxo_to_grpc tx.content.output_utxos;
  timestamp = tx.content.timestamp;
  signature = tx.signature;
  hash = tx.hash;
  senderpubkey = tx.content.sender_pub_key;
}

unfoldable pub convert_header_to_grpc : BlockHeader → GrpcBlockHeader
convert_header_to_grpc h = record {
  timestamp = h.timestamp;
  previous_hash = h.previous_hash;
  content_hash = h.content_hash;
  height = wrap32 h.height;
  difficulty = h.difficulty;
  nonce = h.nonce;
}

unfoldable pub convert_block_to_grpc : Block → GrpcBlock
convert_block_to_grpc b = record {
  header = some (convert_header_to_grpc b.header);
  content = some (record { transactions = map convert_transaction_to_grpc b.content.transactions });
  hash = b.hash;
}

unfoldable pub convert_block_headers_to_grpc : List BlockHeader → List GrpcBlockHeader
convert_block_headers_to_grpc = map convert_header_to_grpc

unfoldable pub convert_grpc_to_utxo : GrpcUtxo → Utxo
convert_grpc_to_utxo u = record {
  tx_id = u.tx_hash;
  index = u.index;
  amount = u.amount;
  address = u.address;
}

unfoldable pub convert_grpc_to_utxos : List GrpcUtxo → List Utxo
convert_grpc_to_utxos = map convert_grpc_to_utxo

unfoldable pub convert_grpc_to_transaction : GrpcTransaction → Transaction
convert_grpc_to_transaction tx = record {
  content = record {
    input_utxos = map convert_grpc_to_utxo tx.inputs;
    output_utxos = map convert_grpc_to_utxo tx.outputs;
    sender_pub_key = tx.senderpubkey;
    timestamp = tx.timestamp;
  };
  signature = tx.signature;
  hash = tx.hash;
}

unfoldable pub convert_grpc_to_header : GrpcBlockHeader → BlockHeader
convert_grpc_to_header h = record {
  timestamp = h.timestamp;
  previous_hash = h.previous_hash;
  content_hash = h.content_hash;
  height = h.height;
  difficulty = h.difficulty;
  nonce = h.nonce;
}

abbrev block_from : Option GrpcBlockHeader → Option GrpcBlockContent → Str → Result Block
block_from none _ hash = panic
block_from (some h) none hash = panic
block_from (some h) (some c) hash = ok (record {
  header = convert_grpc_to_header h;
  content = record { transactions = map convert_grpc_to_transaction c.transactions };
  hash = hash;
})

unfoldable pub convert_grpc_to_block : GrpcBlock → Result Block
convert_grpc_to_block b = block_from b.header b.content b.hash

unfoldable pub convert_grpc_headers_to_block_headers : List GrpcBlockHeader → List BlockHeader
convert_grpc_headers_to_block_headers = map convert_grpc_to_header
