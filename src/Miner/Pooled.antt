-- ===== src/Miner/Pooled.antt =====
-- The pool of a miner through its life.
use nakamato_blockchain.Base.{
  ℕ, ◌≡◌, sym, ap, subst, ◌∙◌, Option, some, List, [], ◌∷◌, arith, All, Bool, inl, inr,
  Option-cases,
}
use nakamato_blockchain.Base.Int.{ℤ}
use nakamato_blockchain.Base.Text.{Str}
use nakamato_blockchain.Types.{Block, returned, failed, panicked, outcome}
use nakamato_blockchain.Crypto.{Primitives}
use nakamato_blockchain.Blockchain.{new_blockchain}
use nakamato_blockchain.TransactionPool.{TransactionPool, new_transaction_pool}
use nakamato_blockchain.Convert.{GrpcBlock}
use nakamato_blockchain.Server.{BlockchainServer, Reply, new_blockchain_server}
use nakamato_blockchain.Server.Submitted.{submit_block_cases}
use nakamato_blockchain.Server.Incoming.{submit_block}
use nakamato_blockchain.Server.Mining.{start_mining}
use nakamato_blockchain.Server.Turns.{mine_turn}
use nakamato_blockchain.Server.Pool.{
  IsPooled, submit_transaction-IsPooled, handle_block_submission-tx_pool, mine_turn-tx_pool,
}
use nakamato_blockchain.Client.{UtxoEntry}
use nakamato_blockchain.Miner.{start_node, miner_main, load_utxos}
use nakamato_blockchain.Miner.Requests.{serve_http-Served}
use nakamato_blockchain.Miner.Events.{
  Event, transaction_came, block_came, request_came, turn_ended, after_event, after_events,
}

module _ (p : Primitives) (split_host_port : Str → Option (Str × Str)) (dial : Str → Option ℕ) where
  submit_block-tx_pool :
      (answer : ℕ → Str → Option Block) (s : BlockchainServer) (b : Option GrpcBlock)
      (hashes : List Str) (peer : Str)
      → (submit_block p answer s b hashes peer).server.tx_pool ≡ s.tx_pool
  submit_block-tx_pool answer s b hashes peer = elim (submit_block_cases p answer s b hashes peer) [
    | inl same ↦ ap (λ (t : BlockchainServer). t.tx_pool) same
    | inr (g, c, shape, converted, done) ↦
        ap (λ (r : Reply Bool). r.server.tx_pool) done
        ∙ handle_block_submission-tx_pool p answer s c hashes peer
  ]

  after_event-IsPooled :
      (s : BlockchainServer) (e : Event)
      → All (IsPooled p) s.tx_pool.transactions
      → All (IsPooled p) (after_event p split_host_port dial s e).tx_pool.transactions
  unfolding after_event
  after_event-IsPooled s (transaction_came tx) hs = submit_transaction-IsPooled p s tx hs
  after_event-IsPooled s (block_came answer b hashes peer) hs =
      kept (submit_block p answer s b hashes peer).server.tx_pool
        (submit_block-tx_pool answer s b hashes peer)
    where
      kept : (t : TransactionPool) → t ≡ s.tx_pool → All (IsPooled p) t.transactions
      kept t e = subst (λ (u : TransactionPool). All (IsPooled p) u.transactions) (sym e) hs
  after_event-IsPooled s (request_came r) hs =
      let served = serve_http-Served split_host_port dial s r in
      subst (λ (u : TransactionPool). All (IsPooled p) u.transactions) (sym served.pool_kept) hs
  after_event-IsPooled s (turn_ended views tries) hs =
      elim (Option-cases (mine_turn p views tries s)) [
        | inl e ↦ rw e hs
        | inr (reply, e) ↦ rw e (
            subst (λ (u : TransactionPool). All (IsPooled p) u.transactions)
              (sym (mine_turn-tx_pool p views tries s reply e)) hs)
      ]

  pub after_events-IsPooled :
      (s : BlockchainServer) (es : List Event)
      → All (IsPooled p) s.tx_pool.transactions
      → All (IsPooled p) (after_events p split_host_port dial s es).tx_pool.transactions
  unfolding after_events
  after_events-IsPooled s [] hs = hs
  after_events-IsPooled s (e ∷ es) hs =
      after_events-IsPooled (after_event p split_host_port dial s e) es
        (after_event-IsPooled s e hs)

  start_node-tx_pool :
      (now : ℤ) (file : Option (List UtxoEntry)) (mode : ℤ) (addresses : List Str)
      (s : BlockchainServer)
      → start_node split_host_port dial p now file mode addresses ≡ some s
      → s.tx_pool.transactions ≡ []
  unfolding start_node new_blockchain_server start_mining new_transaction_pool
  start_node-tx_pool now file mode addresses s h = elim (Option-cases (load_utxos file)) [
    | inl e ↦ absurd (ground (arith, h, e))
    | inr (utxos, e) ↦ elim (outcome (new_blockchain p now utxos)) [
      | failed why f ↦ absurd (ground (arith, h, e, f))
      | panicked f ↦ absurd (ground (arith, h, e, f))
      | returned bc f ↦ ground (arith, h, e, f)
    ]
  ]

  -- A miner starts with an empty pool.
  pub miner_main-tx_pool :
      (atoi : Str → ℤ) (files : Str → Option (List UtxoEntry)) (now : ℤ) (args : List Str)
      (s : BlockchainServer)
      → miner_main split_host_port dial p atoi files now args ≡ some s
      → s.tx_pool.transactions ≡ []
  unfolding miner_main
  miner_main-tx_pool atoi files now (a ∷ b ∷ c ∷ d ∷ e ∷ rest) s h =
      start_node-tx_pool now (files b) (atoi e) rest s h
  miner_main-tx_pool atoi files now [] s h = absurd (ground (arith, h))
  miner_main-tx_pool atoi files now (a ∷ []) s h = absurd (ground (arith, h))
  miner_main-tx_pool atoi files now (a ∷ b ∷ []) s h = absurd (ground (arith, h))
  miner_main-tx_pool atoi files now (a ∷ b ∷ c ∷ []) s h = absurd (ground (arith, h))
  miner_main-tx_pool atoi files now (a ∷ b ∷ c ∷ d ∷ []) s h = absurd (ground (arith, h))
