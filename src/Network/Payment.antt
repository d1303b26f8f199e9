-- ===== src/Network/Payment.antt =====
-- A client's payment, once a node has mined it and the block has gone round.
use nakamato_blockchain.Base.{
  ℕ, ◌+◌, ◌<◌, ◌≡◌, some, List, [], ◌∷◌, ◌++◌, All, length, get_elem?, if◌then◌else◌,
}
use nakamato_blockchain.Base.Int.{ℤ, pos, int32_half}
use nakamato_blockchain.Base.Text.{Str, str_eq}
use nakamato_blockchain.Types.{Transaction, Block, ok}
use nakamato_blockchain.Crypto.{Primitives, key_to_addr}
use nakamato_blockchain.Transaction.Create.{IsSpendable}
use nakamato_blockchain.UtxoSet
use nakamato_blockchain.UtxoSet.{UtxoSet, get}
use nakamato_blockchain.UtxoSet.Worth.{worth}
use nakamato_blockchain.Blockchain.{create_block}
use nakamato_blockchain.Blockchain.Growth.{IsChain}
use nakamato_blockchain.TransactionPool.{get_up_to_n_transactions}
use nakamato_blockchain.Convert.RoundTrip.{FitsTransaction}
use nakamato_blockchain.Server.{BlockchainServer, Reply}
use nakamato_blockchain.Server.Mining.{Turn}
use nakamato_blockchain.Server.Search.{View, Try, nonce_of, with_nonce}
use nakamato_blockchain.Server.Search.Ready.{HeadersMarshalled, IsSolved}
use nakamato_blockchain.Server.Turns.{mine_turn}
use nakamato_blockchain.Network.{Network, set, Run}
use nakamato_blockchain.Network.Gossip.Spread.{managers, Reaches}
use nakamato_blockchain.Network.Consensus.{Has, FindsFresh, mined_block_reaches}
use nakamato_blockchain.Client.Created.{IsCreated}
use nakamato_blockchain.Client.Balances.{IsCreated-worth}

module _ (p : Primitives) (s : BlockchainServer) (tx : Transaction) (b : Block) (now : ℤ)
    (chain : IsChain p s.blockchain.blocks) (small : length s.blockchain.blocks < int32_half)
    (created : create_block p now s.blockchain (tx ∷ []) ≡ ok b)
    (spends : (UtxoSet.add_transaction p s.blockchain.utxo_set tx).0 ≡ ok tt) where
  -- A client's payment, mined by a node in mode 0 as in `mined_block_reaches`, moves the money on
  -- every node that can be reached from the miner once no call is left: on its UTXO set the
  -- sender's address has lost the amount and the receiver's has gained it, in worth and against the
  -- miner's set before, and no other address has lost or gained. The client's UTXOs at the sender's
  -- address were spendable.
  pub payment_arrives :
      (u : UtxoSet) (sender receiver : Str) (amount : ℕ) (order : List Transaction)
      (views : List View) (before after : List Try) (t : Try) (nodes : List BlockchainServer)
      (first n j : ℕ) (reply : Reply Turn) (end : Network) (a : Str)
      → IsCreated p u sender receiver amount tx
      → All (IsSpendable (key_to_addr p sender)) (get u (key_to_addr p sender))
      → s.mode ≡ pos 0
      → get_up_to_n_transactions p (pos 1) s.blockchain.utxo_set order ≡ tx ∷ []
      → HeadersMarshalled p
      → All (λ (v : Try). v.server.blockchain ≡ s.blockchain) (before ++ t ∷ [])
      → IsSolved p (with_nonce (pos (nonce_of t)) b)
      → FitsTransaction tx
      → FindsFresh p s.blockchain b (before ++ t ∷ after)
      → All (Has s.blockchain) nodes
      → get_elem? nodes first ≡ some s
      → mine_turn p
          (record { server = s; now = now; order = order } ∷ views)
          (before ++ t ∷ after)
          s
        ≡ some reply
      → Run p n (record { nodes = set first reply.server nodes; calls = reply.sent }) end
      → end.calls ≡ []
      → Reaches (managers nodes) first j
      → (peer : BlockchainServer) × (get_elem? end.nodes j ≡ some peer)
        × (worth peer.blockchain.utxo_set a
              + (if str_eq a (key_to_addr p sender) then amount else 0)
            ≡ worth s.blockchain.utxo_set a
              + (if str_eq a (key_to_addr p receiver) then amount else 0))
  payment_arrives u sender receiver amount order views before after t nodes first n j reply end a
        made spendable honest chosen marshalled quiet solved carried finds_fresh have at_first turn
        run ended reaches =
      let (c, _, peer, at_j, same) =
        mined_block_reaches p s tx b now chain small created spends order views before after t nodes
          first n j reply end honest chosen marshalled quiet solved carried finds_fresh have
          at_first turn run ended reaches in
      let moved =
        IsCreated-worth p u s.blockchain.utxo_set sender receiver amount tx a made spendable
          spends in
      (peer, at_j, rw same moved)
