-- ===== src/Server/Submitted.antt =====
-- What becomes of a block that a peer submits.
use nakamato_blockchain.Base.{
  ℕ, ◌≡◌, ◌⊎◌, refl, inl, inr, Option, none, some, List, arith, Bool-cases,
}
use nakamato_blockchain.Base.Text.{Str}
use nakamato_blockchain.Types.{Block, returned, failed, panicked, outcome, ok}
use nakamato_blockchain.Crypto.{Primitives}
use nakamato_blockchain.PeerManager.{is_blacklisted}
use nakamato_blockchain.Convert.{GrpcBlock, convert_grpc_to_block}
use nakamato_blockchain.Server.{BlockchainServer, handle_block_submission}
use nakamato_blockchain.Server.Incoming.{submit_block}

-- `SubmitBlock` leaves the node as it was, or hands the converted block on.
pub submit_block_cases :
    (p : Primitives) (answer : ℕ → Str → Option Block) (s : BlockchainServer) (b : Option GrpcBlock)
    (hashes : List Str) (peer : Str)
    → ((submit_block p answer s b hashes peer).server ≡ s)
      ⊎ ((g : GrpcBlock) × (c : Block) × (b ≡ some g)
          × (convert_grpc_to_block g ≡ ok c)
          × (submit_block p answer s b hashes peer
              ≡ handle_block_submission p answer s c hashes peer))
unfolding submit_block
submit_block_cases p answer s none hashes peer = inl refl
submit_block_cases p answer s (some g) hashes peer =
    elim (Bool-cases (is_blacklisted s.peer_manager peer)) [
      | inl black ↦ inl (ground (arith, black))
      | inr white ↦ elim (outcome (convert_grpc_to_block g)) [
        | failed why e ↦ inl (ground (arith, white, e))
        | panicked e ↦ inl (ground (arith, white, e))
        | returned c e ↦ inr (g, c, refl, e, ground (arith, white, e))
      ]
    ]
