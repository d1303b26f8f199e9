-- ===== src/Server/Incoming.antt =====
-- internal/server/incomingtraffic.go: the calls that a node answers. The reply to a caller is a pair of
-- the response and the gRPC error, which repeats the response's; here it is the one result.
use nakamato_blockchain.Base.{
  ℕ, suc, ◌≤◌, ◌<◌, ◌≡◌, sym, ap, Bool, true, false, none, some, Option, List, [], ◌∷◌, ◌++◌,
  length-append, arith, length, if◌then◌else◌, ◌∙◌,
}
use nakamato_blockchain.Base.Int.{ℤ, pos, negsuc, wrap32, leb_ℤ, int32_half, wrap32_id}
use nakamato_blockchain.Base.Text.{Str, codes}
use nakamato_blockchain.Encoding.Decimal.{format_int}
use nakamato_blockchain.Types.{Block, block_not_found, peer_blacklisted, Result, ok, err, panic}
use nakamato_blockchain.Crypto.{Primitives}
use nakamato_blockchain.Blockchain.{get_block_by_hash, get_transaction_depth, any_hash}
use nakamato_blockchain.Blockchain.Depth.{absent, present, get_transaction_depth_cases}
use nakamato_blockchain.PeerManager.{is_blacklisted}
use nakamato_blockchain.Convert.{
  TransactionStatus, GrpcTransaction, GrpcBlock, convert_grpc_to_transaction, convert_grpc_to_block,
  convert_block_to_grpc,
}
use nakamato_blockchain.Server.{
  BlockchainServer, Reply, handle_transaction_submission, handle_block_submission,
}

abbrev submit_converted :
    Primitives
    → (ℕ → Str → Option Block)
    → BlockchainServer
    → List Str
    → Str
    → Result Block
    → Reply Bool
submit_converted p answer s hashes peer_addr (ok b) =
    handle_block_submission p answer s b hashes peer_addr
submit_converted p answer s hashes peer_addr (err e) = record {
  result = err e;
  server = s;
  sent = [];
}
submit_converted p answer s hashes peer_addr panic = record {
  result = panic;
  server = s;
  sent = [];
}

-- A message without a block is a panic, before anything else. The response to a blacklisted peer is not
-- accepted, with no gRPC error.
unfoldable pub submit_block :
    Primitives
    → (ℕ → Str → Option Block)
    → BlockchainServer
    → Option GrpcBlock
    → List Str
    → Str
    → Reply Bool
submit_block p answer s none hashes peer_addr = record { result = panic; server = s; sent = [] }
submit_block p answer s (some block) hashes peer_addr =
    let converted = submit_converted p answer s hashes peer_addr (convert_grpc_to_block block) in
    if is_blacklisted s.peer_manager peer_addr
    then record { result = err peer_blacklisted; server = s; sent = [] }
    else converted

unfoldable pub submit_transaction : Primitives → BlockchainServer → GrpcTransaction → Reply Bool
submit_transaction p s tx = handle_transaction_submission p s (convert_grpc_to_transaction tx)

unfoldable pub answer_block : BlockchainServer → Str → Result GrpcBlock
answer_block s hash = elim (get_block_by_hash s.blockchain hash) [
  | none ↦ err block_not_found
  | some b ↦ ok (convert_block_to_grpc b)
]

-- Whether the transaction is confirmed with k blocks.
unfoldable pub get_transaction_status : BlockchainServer → Str → ℤ → Bool
get_transaction_status s hash k = leb_ℤ k (wrap32 (get_transaction_depth s.blockchain hash))

-- The text of the response, which is empty when the transaction is confirmed.
abbrev status_text : Str → ℤ → ℤ → Str
status_text hash k depth =
    codes "Transaction "
    ++ hash
    ++ codes " not confirmed with k="
    ++ format_int k
    ++ codes ". Has depth of "
    ++ format_int depth
    ++ codes "."

unfoldable pub transaction_status : BlockchainServer → Str → ℤ → TransactionStatus
unfolding get_transaction_status
transaction_status s hash k =
    if get_transaction_status s hash k then record { confirmed = true; error = [] } else record {
      confirmed = false;
      error = status_text hash k (wrap32 (get_transaction_depth s.blockchain hash));
    }

at_least : (k n : ℕ) → leb_ℤ (pos k) (pos n) ≡ true → k ≤ n
at_least k n h = ground arith

-- Where `GetTransactionStatus` confirms a transaction for a positive k, on a chain of fewer than 2
-- ^ 31 blocks, a block of the chain holds its hash, and that block and those behind it are k or
-- more.
pub get_transaction_status-confirmed :
    (s : BlockchainServer) (hash : Str) (k : ℕ)
    → 0 < k
    → length s.blockchain.blocks < int32_half
    → get_transaction_status s hash (pos k) ≡ true
    → (older : List Block) × (b : Block) × (newer : List Block) × (s.blockchain.blocks
        ≡ older ++ b ∷ newer)
      × (any_hash hash b.content.transactions ≡ true)
      × (k ≤ suc (length newer))
unfolding get_transaction_status
get_transaction_status-confirmed s hash k positive small h =
    elim (get_transaction_depth_cases s.blockchain hash) [
      | absent _ e ↦
          let low : leb_ℤ (pos k) (wrap32 (negsuc 0)) ≡ true =
            ap (λ d. leb_ℤ (pos k) (wrap32 d)) (sym e) ∙ h in
          absurd (unfold wrap32 in ground arith)
      | present older b newer shape held _ _ e ↦
          let size : suc (length newer) < int32_half =
            omega (arith, small, ap length shape, length-append older (b ∷ newer)) in
          let depth : wrap32 (pos (suc (length newer))) ≡ pos (suc (length newer)) =
            wrap32_id (pos (suc (length newer))) (size, omega arith) in
          let enough : leb_ℤ (pos k) (pos (suc (length newer))) ≡ true =
            ap (leb_ℤ (pos k)) (sym depth) ∙ ap (λ d. leb_ℤ (pos k) (wrap32 d)) (sym e) ∙ h in
          (older, b, newer, shape, held, at_least k (suc (length newer)) enough)
    ]
