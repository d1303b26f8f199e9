-- ===== src/Miner/Lifetime.antt =====
-- The chain and the pool of a miner through its life.
use nakamato_blockchain.Base.{
  ℕ, ◌≡◌, ◌⊎◌, sym, ap, subst, inl, inr, Option, none, some, List, [], ◌∷◌, arith, get_last?, Bool,
  All, Option-cases,
}
use nakamato_blockchain.Base.Int.{ℤ}
use nakamato_blockchain.Base.Text.{Str}
use nakamato_blockchain.Types.{Block, returned, failed, panicked, outcome}
use nakamato_blockchain.Crypto.{Primitives}
use nakamato_blockchain.Blockchain.{Blockchain, new_blockchain, get_last_block}
use nakamato_blockchain.Blockchain.Growth.{new_blockchain-genesis}
use nakamato_blockchain.Fork.Limits.{IsLinked}
use nakamato_blockchain.Convert.{GrpcTransaction, GrpcBlock}
use nakamato_blockchain.Server.{
  BlockchainServer, Reply, new_blockchain_server, handle_transaction_submission,
  handle_block_submission, link_block,
}
use nakamato_blockchain.Server.Chain.{handle_block_submission-IsLinked}
use nakamato_blockchain.Server.Submitted.{submit_block_cases}
use nakamato_blockchain.Server.Incoming.{submit_transaction, submit_block}
use nakamato_blockchain.Server.Mining.{start_mining}
use nakamato_blockchain.Server.Turns.{mine_turn}
use nakamato_blockchain.Server.Growth.{
  Mined, unchanged, extended, mine_turn-Mined, IsIntact, add_block-IsIntact,
}
use nakamato_blockchain.Client.{UtxoEntry}
use nakamato_blockchain.Miner.{start_node, miner_main, load_utxos}
use nakamato_blockchain.Miner.Requests.{serve_http-Served}
use nakamato_blockchain.Miner.Events.{
  Event, transaction_came, block_came, request_came, turn_ended, after_event, after_events,
}
use nakamato_blockchain.Server.Pool.{IsPooled}
use nakamato_blockchain.Miner.Pooled.{after_events-IsPooled, miner_main-tx_pool}

module _ (p : Primitives) (split_host_port : Str → Option (Str × Str)) (dial : Str → Option ℕ) where
  pub submit_transaction-blockchain :
      (s : BlockchainServer) (tx : GrpcTransaction)
      → (submit_transaction p s tx).server.blockchain ≡ s.blockchain
  unfolding submit_transaction handle_transaction_submission
  submit_transaction-blockchain s tx = ground arith

  -- On an empty chain nothing is done to the chain.
  handle_block_submission-empty :
      (answer : ℕ → Str → Option Block) (s : BlockchainServer) (b : Block) (hashes : List Str)
      (peer : Str)
      → s.blockchain.blocks ≡ []
      → (handle_block_submission p answer s b hashes peer).server.blockchain.blocks ≡ []
  unfolding handle_block_submission link_block
  handle_block_submission-empty answer s b hashes peer empty =
      let tip : get_last_block s.blockchain ≡ none = unfold get_last_block in ap get_last? empty in
      ground (arith, tip, empty)

  handle_block_submission-IsIntact :
      (answer : ℕ → Str → Option Block) (s : BlockchainServer) (b : Block) (hashes : List Str)
      (peer : Str)
      → IsIntact p s.blockchain.blocks
      → IsIntact p (handle_block_submission p answer s b hashes peer).server.blockchain.blocks
  handle_block_submission-IsIntact answer s b hashes peer (inl l) =
      handle_block_submission-IsLinked p answer s b hashes peer l
  handle_block_submission-IsIntact answer s b hashes peer (inr empty) =
      inr (handle_block_submission-empty answer s b hashes peer empty)

  submit_block-IsIntact :
      (answer : ℕ → Str → Option Block) (s : BlockchainServer) (b : Option GrpcBlock)
      (hashes : List Str) (peer : Str)
      → IsIntact p s.blockchain.blocks
      → IsIntact p (submit_block p answer s b hashes peer).server.blockchain.blocks
  submit_block-IsIntact answer s b hashes peer sound =
      elim (submit_block_cases p answer s b hashes peer) [
        | inl same ↦
            subst (λ (t : BlockchainServer). IsIntact p t.blockchain.blocks) (sym same) sound
        | inr (g, c, shape, converted, done) ↦
            subst (λ (r : Reply Bool). IsIntact p r.server.blockchain.blocks) (sym done)
              (handle_block_submission-IsIntact answer s c hashes peer sound)
      ]

  after_event-IsIntact :
      (s : BlockchainServer) (e : Event)
      → IsIntact p s.blockchain.blocks
      → IsIntact p (after_event p split_host_port dial s e).blockchain.blocks
  unfolding after_event
  after_event-IsIntact s (transaction_came tx) sound =
      subst (λ (c : Blockchain). IsIntact p c.blocks) (sym (submit_transaction-blockchain s tx))
        sound
  after_event-IsIntact s (block_came answer b hashes peer) sound =
      submit_block-IsIntact answer s b hashes peer sound
  after_event-IsIntact s (request_came r) sound =
      let served = serve_http-Served split_host_port dial s r in
      subst (λ (c : Blockchain). IsIntact p c.blocks) (sym served.chain_kept) sound
  after_event-IsIntact s (turn_ended views tries) sound =
      elim (Option-cases (mine_turn p views tries s)) [
        | inl e ↦ rw e sound
        | inr (reply, e) ↦ rw e (
            mined_sound _
              (mine_turn-Mined p (λ _. Unit {0}) views tries s reply (λ _ _ _ _ _. (tt, tt)) e))
      ]
    where
      mined_sound : (c : Blockchain) → Mined p (λ _. Unit {0}) s.blockchain c → IsIntact p c.blocks
      mined_sound _ unchanged = sound
      mined_sound _ (extended b _) = add_block-IsIntact p s.blockchain b sound

  after_events-IsIntact :
      (s : BlockchainServer) (es : List Event)
      → IsIntact p s.blockchain.blocks
      → IsIntact p (after_events p split_host_port dial s es).blockchain.blocks
  unfolding after_events
  after_events-IsIntact s [] sound = sound
  after_events-IsIntact s (e ∷ es) sound =
      after_events-IsIntact (after_event p split_host_port dial s e) es
        (after_event-IsIntact s e sound)

  start_node-IsIntact :
      (now : ℤ) (file : Option (List UtxoEntry)) (mode : ℤ) (addresses : List Str)
      (s : BlockchainServer)
      → start_node split_host_port dial p now file mode addresses ≡ some s
      → IsIntact p s.blockchain.blocks
  unfolding start_node new_blockchain_server start_mining
  start_node-IsIntact now file mode addresses s h = elim (Option-cases (load_utxos file)) [
    | inl e ↦ absurd (ground (arith, h, e))
    | inr (utxos, e) ↦ elim (outcome (new_blockchain p now utxos)) [
      | failed why f ↦ absurd (ground (arith, h, e, f))
      | panicked f ↦ absurd (ground (arith, h, e, f))
      | returned bc f ↦
          let same : bc ≡ s.blockchain = ground (arith, h, e, f) in
          let (g, one, _, _) = new_blockchain-genesis p now utxos bc f in
          subst (λ (c : Blockchain). IsIntact p c.blocks) same
            (inl (record { first = g; later = []; shape = one; follows = tt }))
    ]
  ]

  miner_main-chain :
      (atoi : Str → ℤ) (files : Str → Option (List UtxoEntry)) (now : ℤ) (args : List Str)
      (s : BlockchainServer)
      → miner_main split_host_port dial p atoi files now args ≡ some s
      → IsIntact p s.blockchain.blocks
  unfolding miner_main
  miner_main-chain atoi files now (a ∷ b ∷ c ∷ d ∷ e ∷ rest) s h =
      start_node-IsIntact now (files b) (atoi e) rest s h
  miner_main-chain atoi files now [] s h = absurd (ground (arith, h))
  miner_main-chain atoi files now (a ∷ []) s h = absurd (ground (arith, h))
  miner_main-chain atoi files now (a ∷ b ∷ []) s h = absurd (ground (arith, h))
  miner_main-chain atoi files now (a ∷ b ∷ c ∷ []) s h = absurd (ground (arith, h))
  miner_main-chain atoi files now (a ∷ b ∷ c ∷ d ∷ []) s h = absurd (ground (arith, h))

  -- After any transactions and blocks from peers, HTTP requests and turns of mining, in any order,
  -- the chain of a miner that has started is one in which every later block is valid and names the
  -- hash of the one before it, or has no block left, and every transaction in its pool verifies and
  -- stands under its hash.
  pub miner_main-IsIntact :
      (atoi : Str → ℤ) (files : Str → Option (List UtxoEntry)) (now : ℤ) (args : List Str)
      (s : BlockchainServer) (es : List Event)
      → miner_main split_host_port dial p atoi files now args ≡ some s
      → let after = after_events p split_host_port dial s es in
        (IsLinked p after.blockchain.blocks ⊎ (after.blockchain.blocks ≡ []))
        × All (IsPooled p) after.tx_pool.transactions
  miner_main-IsIntact atoi files now args s es h = (
    after_events-IsIntact s es (miner_main-chain atoi files now args s h),
    after_events-IsPooled p split_host_port dial s es (
        subst (All (IsPooled p))
          (sym (miner_main-tx_pool p split_host_port dial atoi files now args s h)) tt),
  )
