-- ===== src/Convert/RoundTrip.antt =====
-- A block or transaction that is sent and received.
use nakamato_blockchain.Base.{◌≡◌, refl, ap, List, [], ◌∷◌, map, All}
use nakamato_blockchain.Base.Int.{IsInt32, wrap32_id}
use nakamato_blockchain.Types.{Utxo, Transaction, BlockHeader, Block, ok}
use nakamato_blockchain.Convert.{
  convert_utxo_to_grpc, convert_grpc_to_utxo, convert_transaction_to_grpc,
  convert_grpc_to_transaction, convert_header_to_grpc, convert_grpc_to_header,
  convert_block_to_grpc, convert_grpc_to_block,
}

abbrev pub HasInt32Index : Utxo → Type 0
HasInt32Index u = IsInt32 u.index

-- Every index of the transaction fits an int32.
abbrev pub FitsTransaction : Transaction → Type 0
FitsTransaction tx =
    All HasInt32Index tx.content.input_utxos × All HasInt32Index tx.content.output_utxos

-- So does the height of the block.
abbrev pub FitsBlock : Block → Type 0
FitsBlock b = IsInt32 b.header.height × All FitsTransaction b.content.transactions

-- Mapping there and back, entry by entry.
map-map {ℓ κ} :
    {A : Type 0} {B : Type ℓ} (P : A → Type κ) (f : A → B) (g : B → A)
    → ((a : A) → P a → g (f a) ≡ a)
    → (xs : List A) → All P xs
    → map g (map f xs) ≡ xs
map-map P f g e [] h = refl
map-map P f g e (x ∷ xs) h = λ i. e x h.0 i ∷ map-map P f g e xs h.1 i

utxo-round : (u : Utxo) → HasInt32Index u → convert_grpc_to_utxo (convert_utxo_to_grpc u) ≡ u
unfolding convert_grpc_to_utxo convert_utxo_to_grpc
utxo-round u h = ap (λ z. record u { index = z }) (wrap32_id u.index h)

utxos-round :
    (us : List Utxo)
    → All HasInt32Index us
    → map convert_grpc_to_utxo (map convert_utxo_to_grpc us) ≡ us
utxos-round = map-map HasInt32Index convert_utxo_to_grpc convert_grpc_to_utxo utxo-round

-- A transaction whose indices fit an int32 arrives as it was sent.
pub transaction_round_trip :
    (tx : Transaction)
    → FitsTransaction tx
    → convert_grpc_to_transaction (convert_transaction_to_grpc tx) ≡ tx
unfolding convert_grpc_to_transaction convert_transaction_to_grpc
transaction_round_trip tx h = λ i. record tx {
  content = record tx.content {
    input_utxos = utxos-round tx.content.input_utxos h.0 i;
    output_utxos = utxos-round tx.content.output_utxos h.1 i;
  };
}

pub header-round :
    (h : BlockHeader) → IsInt32 h.height → convert_grpc_to_header (convert_header_to_grpc h) ≡ h
unfolding convert_grpc_to_header convert_header_to_grpc
header-round h k = ap (λ z. record h { height = z }) (wrap32_id h.height k)

-- A block whose height and UTXO indices fit an int32 is the same after `ConvertBlockToGrpc` and
-- `ConvertGrpcToBlock`, and the conversion does not panic.
pub block_round_trip :
    (b : Block) → FitsBlock b → convert_grpc_to_block (convert_block_to_grpc b) ≡ ok b
unfolding convert_grpc_to_block convert_block_to_grpc
block_round_trip b h = λ i. ok (record b {
  header = header-round b.header h.0 i;
  content = record {
    transactions =
        map-map FitsTransaction convert_transaction_to_grpc convert_grpc_to_transaction
          transaction_round_trip b.content.transactions h.1 i;
  };
})
