-- ===== src/Network/Blocks.antt =====
-- A block on its way through a network of nodes that all have the same chain.
use nakamato_blockchain.Base.{
  ℕ, ◌≡◌, ◌≢◌, refl, ap, ◌∙◌, sym, ◌⊎◌, inl, inr, Bool, true, false, ◌&&◌, Option, none, some, List,
  [], ◌∷◌, ◌++◌, map, arith, get_elem?, get_last?, get_last?-append,
}
use nakamato_blockchain.Base.Int.{pos, eq_ℤ, leb_ℤ, ltb_ℤ}
use nakamato_blockchain.Base.Text.{Str, str_eq}
use nakamato_blockchain.Types.{Block, ok, err, block_exists}
use nakamato_blockchain.Crypto.{Primitives}
use nakamato_blockchain.Block
use nakamato_blockchain.Blockchain.{
  Blockchain, add_block, check_link, get_last_block, get_block_by_hash,
}
use nakamato_blockchain.Blockchain.Growth.{add_block_ok}
use nakamato_blockchain.Blockchain.Lookup.{find_block-append, find_block-last}
use nakamato_blockchain.PeerManager.{is_blacklisted}
use nakamato_blockchain.Convert.{convert_block_to_grpc}
use nakamato_blockchain.Convert.RoundTrip.{FitsBlock, block_round_trip}
use nakamato_blockchain.Server.{
  BlockchainServer, Message, submit_block, list_peer_clients, broadcast_block, link_block,
  handle_block_submission,
}
use nakamato_blockchain.Server.Incoming
use nakamato_blockchain.Network.{set, answer_of, handle, receive}
use nakamato_blockchain.Network.Gossip.{Gossip, receive-handle}

-- The call that brings the block, with the hashes, to node i.
abbrev pub call : Block → List Str → ℕ → Message
call b hashes i = submit_block i (convert_block_to_grpc b) hashes

abbrev pub is_some : Option Block → Bool
is_some none = false
is_some (some _) = true

-- The chain of the node has a block with the hash of this one.
abbrev pub knows : Block → BlockchainServer → Bool
knows b s = is_some (get_block_by_hash s.blockchain b.hash)

-- A block that comes next on a chain, and the chain after it.
pub record IsNext (p : Primitives) (bc after : Blockchain) (last b : Block) : Type 0 where
  pub tip : get_last_block bc ≡ some last
  pub added : add_block p bc b ≡ (ok tt, after)
  -- No block of the chain has its hash.
  pub fresh : get_block_by_hash bc b.hash ≡ none
  -- The messages can carry it.
  pub fits : FitsBlock b

-- A node that is not in mode 3 and has blacklisted nobody, with the one chain or the other.
pub record IsReady (bc after : Blockchain) (s : BlockchainServer) : Type 0 where
  pub relays : s.mode ≢ pos 3
  pub trusting : (peer : Str) → is_blacklisted s.peer_manager peer ≡ false
  pub chain : (s.blockchain ≡ bc) ⊎ (s.blockchain ≡ after)

module _ (p : Primitives) (bc after : Blockchain) (last b : Block) (hashes : List Str)
    (next : IsNext p bc after last b) where
  after_blocks : after.blocks ≡ bc.blocks ++ b ∷ []
  after_blocks =
      let (_, _, _, e) = add_block_ok p bc b (ap (λ r. r.0) next.added) in
      ap (λ r. r.1.blocks) (sym next.added ∙ e)

  verified : Block.verify p b ≡ true
  verified = let (v, _, _, _) = add_block_ok p bc b (ap (λ r. r.0) next.added) in v

  linked : b.header.previous_hash ≡ last.hash
  linked =
      let last_of : get_last? bc.blocks ≡ some last = unfold get_last_block in next.tip in
      let (_, link, _, _) = add_block_ok p bc b (ap (λ r. r.0) next.added) in
      let both : check_link (some last) b ≡ ok tt = ap (λ o. check_link o b) (sym last_of) ∙ link in
      unfold check_link in ground (arith, both)

  pub after-knows : get_block_by_hash after b.hash ≡ some b
  unfolding get_block_by_hash
  after-knows =
      rw after_blocks (find_block-append bc.blocks b (unfold get_block_by_hash in next.fresh))

  after_tip : get_last_block after ≡ some b
  unfolding get_last_block
  after_tip = rw after_blocks (get_last?-append bc.blocks b)

  -- The block does not come after itself.
  not_own_parent : str_eq b.header.previous_hash b.hash ≡ false
  not_own_parent =
      let other =
        find_block-last bc.blocks last b.hash (unfold get_block_by_hash in next.fresh)
          (unfold get_last_block in next.tip) in
      ground (arith, other, linked)

  -- The node with the block on its chain.
  abbrev pub grown : BlockchainServer → BlockchainServer
  grown s = record s { blockchain = after }

  pub grown-IsReady : (s : BlockchainServer) → IsReady bc after s → IsReady bc after (grown s)
  grown-IsReady s ready = record {
    relays = ready.relays;
    trusting = ready.trusting;
    chain = inr refl;
  }

  pub unknown-same :
      (s : BlockchainServer) → IsReady bc after s → knows b s ≡ false → s.blockchain ≡ bc
  unknown-same s ready unknown = elim ready.chain [
    | inl e ↦ e
    | inr e ↦ absurd (
        let found = ap (λ c. get_block_by_hash c b.hash) e ∙ after-knows in
        ground (arith, unknown, found))
  ]

  pub known-after :
      (s : BlockchainServer) → IsReady bc after s → knows b s ≡ true → s.blockchain ≡ after
  known-after s ready known = elim ready.chain [
    | inl e ↦ absurd (
        let none_yet = ap (λ c. get_block_by_hash c b.hash) e ∙ next.fresh in
        ground (arith, known, none_yet))
    | inr e ↦ e
  ]

  module _ (answer : ℕ → Str → Option Block) (peer : Str) (s : BlockchainServer)
      (ready : IsReady bc after s) where
    submitted :
        Incoming.submit_block p answer s (some (convert_block_to_grpc b)) hashes peer
        ≡ link_block p answer s b hashes (get_last_block s.blockchain)
    unfolding Incoming.submit_block handle_block_submission
    submitted =
        let white = ready.trusting peer in
        let free : (eq_ℤ s.mode (pos 3)
              && leb_ℤ (pos 1) b.header.height
              && ltb_ℤ b.header.height (pos 5))
            ≡ false =
          ground (arith, ready.relays) in
        rw (block_round_trip b next.fits) (rw (white, free, verified) refl)

    linked-known :
        s.blockchain ≡ after
        → link_block p answer s b hashes (get_last_block s.blockchain)
          ≡ record { result = err block_exists; server = s; sent = [] }
    unfolding link_block
    linked-known e =
        let tip = ap get_last_block e ∙ after_tip in
        let found = ap (λ c. get_block_by_hash c b.hash) e ∙ after-knows in
        rw tip (rw (not_own_parent, found) refl)

    linked-new :
        s.blockchain ≡ bc
        → link_block p answer s b hashes (get_last_block s.blockchain) ≡ record {
          result = ok true;
          server = grown s;
          sent = broadcast_block s.peer_manager b hashes;
        }
    unfolding link_block
    linked-new e =
        let tip = ap get_last_block e ∙ next.tip in
        let step : str_eq b.header.previous_hash last.hash ≡ true = ground (arith, linked) in
        let added = ap (λ c. add_block p c b) e ∙ next.added in rw tip (rw (step, added) refl)

  module _ (nodes : List BlockchainServer) (peer : Str) (i : ℕ) (s : BlockchainServer)
      (at_i : get_elem? nodes i ≡ some s) (ready : IsReady bc after s) where
    pub receive-known :
        knows b s ≡ true → receive p nodes peer (call b hashes i) ≡ some (set i s nodes, [])
    unfolding handle
    receive-known known = receive-handle p nodes peer (call b hashes i) s _ at_i (
        submitted (answer_of nodes) peer s ready
        ∙ linked-known (answer_of nodes) peer s ready (known-after s ready known))

    pub receive-new :
        knows b s ≡ false
        → receive p nodes peer (call b hashes i)
          ≡ some (set i (grown s) nodes, map (call b hashes) (list_peer_clients s.peer_manager))
    unfolding handle broadcast_block
    receive-new unknown = receive-handle p nodes peer (call b hashes i) s _ at_i (
        submitted (answer_of nodes) peer s ready
        ∙ linked-new (answer_of nodes) peer s ready (unknown-same s ready unknown))

  abbrev pub block_gossip : Gossip p
  block_gossip = record {
    call = call b hashes;
    knows = knows b;
    taking = grown;
    IsReady = IsReady bc after;
    call-receiver = λ i. refl;
    taking-knows = λ s _ _. ap is_some after-knows;
    taking-IsReady = λ s ready _. grown-IsReady s ready;
    taking-peers = λ s. refl;
    receive-known = receive-known;
    receive-taken = receive-new;
  }
