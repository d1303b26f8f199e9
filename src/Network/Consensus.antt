-- ===== src/Network/Consensus.antt =====
-- A block on its way brings every node that it can reach to the same chain and UTXO set.
use nakamato_blockchain.Base.{
  ℕ, ◌<◌, ◌+◌, ◌≡◌, ◌≢◌, ◌⊎◌, sym, ap, ◌∙◌, subst, inl, false, none, some, List, [], ◌∷◌, ◌++◌, All,
  arith, length, get_elem?,
}
use nakamato_blockchain.Base.Int.{ℤ, pos, int32_half, int64_half}
use nakamato_blockchain.Base.Text.{Str}
use nakamato_blockchain.Types.{Transaction, Block, ok}
use nakamato_blockchain.Crypto.{Primitives}
use nakamato_blockchain.UtxoSet
use nakamato_blockchain.Blockchain.{
  Blockchain, create_block, get_block_by_hash, get_last_100_hashes,
}
use nakamato_blockchain.Blockchain.Growth.{IsChain}
use nakamato_blockchain.TransactionPool.{get_up_to_n_transactions}
use nakamato_blockchain.PeerManager.{is_blacklisted}
use nakamato_blockchain.Convert.RoundTrip.{FitsTransaction}
use nakamato_blockchain.Server.{BlockchainServer, Reply, broadcast_block}
use nakamato_blockchain.Server.Mining.{Turn, found}
use nakamato_blockchain.Server.Search.{View, Try, nonce_of, with_nonce, search}
use nakamato_blockchain.Server.Search.Ready.{HeadersMarshalled, IsSolved}
use nakamato_blockchain.Server.Turns.{mine_turn}
use nakamato_blockchain.Server.Round.{mine_turn-published, published, chain_with, last_below}
use nakamato_blockchain.Network.{Network, set, Step, Run}
use nakamato_blockchain.Network.Gossip.Ending.{measure, Run-IsOnly, ends_or_steps}
use nakamato_blockchain.Network.Gossip.Spread.{managers, Reaches}
use nakamato_blockchain.Network.Gossip.Arrival.{told-reaches, told-IsOnly}
use nakamato_blockchain.Network.Blocks.{knows, is_some, IsNext, IsReady, block_gossip, known-after}

-- A node that is not in mode 3 and has blacklisted nobody, with the chain.
pub record Has (bc : Blockchain) (s : BlockchainServer) : Type 0 where
  pub relays : s.mode ≢ pos 3
  pub trusting : (peer : Str) → is_blacklisted s.peer_manager peer ≡ false
  pub chain : s.blockchain ≡ bc

module _ (p : Primitives) (bc after : Blockchain) (last b : Block)
    (next : IsNext p bc after last b) where
  Has-IsReady : (nodes : List BlockchainServer) → All (Has bc) nodes → All (IsReady bc after) nodes
  Has-IsReady [] h = tt
  Has-IsReady (s ∷ nodes) (h, hs) = (
    record { relays = h.relays; trusting = h.trusting; chain = inl h.chain },
    Has-IsReady nodes hs,
  )

  Has-unknown :
      (nodes : List BlockchainServer) → All (Has bc) nodes → All (λ s. knows b s ≡ false) nodes
  Has-unknown [] h = tt
  Has-unknown (s ∷ nodes) (h, hs) =
      (ap is_some (ap (λ c. get_block_by_hash c b.hash) h.chain ∙ next.fresh), Has-unknown nodes hs)

  -- The network in which one node has the block on its chain and sends it to its peers.
  abbrev pub announcing : List BlockchainServer → ℕ → BlockchainServer → List Str → Network
  announcing nodes first s hashes = record {
    nodes = set first (record s { blockchain = after }) nodes;
    calls = broadcast_block s.peer_manager b hashes;
  }

  module _ (hashes : List Str) (nodes : List BlockchainServer) (first : ℕ) (s : BlockchainServer)
      (n : ℕ) (end : Network) (have : All (Has bc) nodes)
      (at_first : get_elem? nodes first ≡ some s)
      (run : Run p n (announcing nodes first s hashes) end) where
    -- In a network in which all nodes have the same chain and UTXO set, are not in mode 3 and have
    -- blacklisted nobody, a block that `AddBlock` adds to this chain, whose height and indices fit
    -- the messages and whose hash no block of the chain has, announced by one node that has added
    -- it, is taken by every node that can be reached from it: once no call is left, whatever order
    -- the calls were made in and whatever addresses the callers had, the node's chain and UTXO set
    -- are those after the block.
    pub block_reaches :
        (j : ℕ)
        → end.calls ≡ []
        → Reaches (managers nodes) first j
        → (t : BlockchainServer) × (get_elem? end.nodes j ≡ some t) × (t.blockchain ≡ after)
    block_reaches j quiet reaches =
        let g = block_gossip p bc after last b hashes next in
        let (t, at_j, knew, ready) =
          told-reaches p g nodes first s (Has-IsReady nodes have) (Has-unknown nodes have) at_first
            n end j (unfold broadcast_block in run) quiet reaches in
        (t, at_j, known-after p bc after last b hashes next t ready knew)

    -- In such a network each call about the block takes exactly one from the calls still to be made
    -- and the connections of the nodes that do not have it, and the network goes on until no call
    -- is left.
    pub block_settles :
        (n + measure (knows b) end ≡ measure (knows b) (announcing nodes first s hashes))
        × ((end.calls ≡ []) ⊎ ((further : Network) × Step p end further))
    block_settles =
        let g = block_gossip p bc after last b hashes next in
        let only =
          told-IsOnly p g nodes first s (Has-IsReady nodes have) (Has-unknown nodes have)
            at_first in
        let (_, e) =
          Run-IsOnly p g n (announcing nodes first s hashes) end (unfold broadcast_block in only)
            run in
        (e, ends_or_steps p g end)

-- What the search finds has a hash that no block of the chain has.
abbrev pub FindsFresh : Primitives → Blockchain → Block → List Try → Type 0
FindsFresh p bc b tries =
    (c : Block) (hash : Str)
    → search p b tries ≡ some (ok (c, hash))
    → get_block_by_hash bc hash ≡ none

module _ (p : Primitives) (s : BlockchainServer) (tx : Transaction) (b : Block) (now : ℤ)
    (chain : IsChain p s.blockchain.blocks) (small : length s.blockchain.blocks < int32_half)
    (created : create_block p now s.blockchain (tx ∷ []) ≡ ok b)
    (spends : (UtxoSet.add_transaction p s.blockchain.utxo_set tx).0 ≡ ok tt) where
  -- Where a turn of `MineBlocks` finds a block with the transaction chosen, as in
  -- `mine_turn_publishes`, on a chain of fewer than 2 ^ 31 blocks, in a network in which all nodes
  -- have this chain and UTXO set, are not in mode 3 and have blacklisted nobody, and its calls are
  -- made, with those they lead to, in whatever order, until none is left: then every node that can
  -- be reached from the miner has the chain with one block more, of just this transaction, and the
  -- UTXO set with the transaction added. The transaction's indices fit the messages, and no block
  -- of the chain has the hash that was found.
  pub mined_block_reaches :
      (order : List Transaction) (views : List View) (before after : List Try) (t : Try)
      (nodes : List BlockchainServer) (first n j : ℕ) (reply : Reply Turn) (end : Network)
      → s.mode ≡ pos 0
      → get_up_to_n_transactions p (pos 1) s.blockchain.utxo_set order ≡ tx ∷ []
      → HeadersMarshalled p
      → All (λ (u : Try). u.server.blockchain ≡ s.blockchain) (before ++ t ∷ [])
      → IsSolved p (with_nonce (pos (nonce_of t)) b)
      → FitsTransaction tx
      → FindsFresh p s.blockchain b (before ++ t ∷ after)
      → All (Has s.blockchain) nodes
      → get_elem? nodes first ≡ some s
      → mine_turn p
          (record { server = s; now = now; order = order } ∷ views)
          (before ++ t ∷ after)
          s
        ≡ some reply
      → Run p n (record { nodes = set first reply.server nodes; calls = reply.sent }) end
      → end.calls ≡ []
      → Reaches (managers nodes) first j
      → (c : Block) × (c.content.transactions ≡ tx ∷ [])
        × (peer : BlockchainServer) × (get_elem? end.nodes j ≡ some peer)
        × (peer.blockchain ≡ record {
          blocks = s.blockchain.blocks ++ c ∷ [];
          utxo_set = (UtxoSet.add_transaction p s.blockchain.utxo_set tx).1;
        })
  mined_block_reaches order views before after t nodes first n j reply end honest chosen marshalled
        quiet solved carried finds_fresh have at_first turn run ended reaches =
      let small64 : length s.blockchain.blocks < int64_half = omega (arith, small) in
      let (k, hash, search_ok, added, height, holds, done) =
        mine_turn-published p s tx b now chain small64 created spends order views before after t
          honest chosen marshalled quiet solved in
      let c = found (with_nonce k b) hash in
      let (last, tip, _, _) = last_below p s tx b now chain small64 created spends in
      let next : IsNext p s.blockchain (chain_with p s tx b now chain small64 created spends c) last
          c =
        record {
          tip = tip;
          added = added;
          fresh = finds_fresh (with_nonce k b) hash search_ok;
          fits = (
            ground (arith, height, small),
            subst (All FitsTransaction) (sym holds) (carried, tt),
          );
        } in
      let same : reply ≡ published p s tx b now chain small64 created spends c =
        ground (arith, turn, done) in
      let (peer, at_j, has) =
        block_reaches p s.blockchain _ last c next (get_last_100_hashes _) nodes first s n end have
          at_first
          (subst
            (λ (r : Reply Turn).
              Run p n (record { nodes = set first r.server nodes; calls = r.sent }) end)
            same run)
          j ended reaches in
      (c, holds, peer, at_j, has)
