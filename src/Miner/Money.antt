-- ===== src/Miner/Money.antt =====
-- The money of a miner over its life.
use nakamato_blockchain.Base.{
  ℕ, ◌+◌, ◌≤◌, ◌≡◌, refl, sym, ap, subst, ◌∙◌, inl, inr, Bool, Option, none, some, List, [], ◌∷◌,
  map, arith, All, Option-cases,
}
use nakamato_blockchain.Base.Int.{ℤ, IsInt64}
use nakamato_blockchain.Base.Text.{Str}
use nakamato_blockchain.Types.{Utxo, Block, ok}
use nakamato_blockchain.Crypto.{Primitives}
use nakamato_blockchain.Transaction.Value.{value}
use nakamato_blockchain.UtxoSet.{UtxoSet, new_utxo_set, add_utxo, add_utxos}
use nakamato_blockchain.UtxoSet.Supply.{supply, supply-add_utxo}
use nakamato_blockchain.UtxoSet.Blocks.{HasInt64Outputs, add_block-supply}
use nakamato_blockchain.Blockchain.{Blockchain, add_block}
use nakamato_blockchain.Convert.{
  GrpcUtxo, GrpcTransaction, GrpcBlock, GrpcBlockContent, convert_grpc_to_utxo,
  convert_grpc_to_transaction, convert_grpc_to_block,
}
use nakamato_blockchain.Server.{BlockchainServer, Reply}
use nakamato_blockchain.Server.Chain.{handle_block_submission-supply}
use nakamato_blockchain.Server.Submitted.{submit_block_cases}
use nakamato_blockchain.Server.Incoming.{submit_block}
use nakamato_blockchain.Server.Mining.{found}
use nakamato_blockchain.Server.Search.{View, Try}
use nakamato_blockchain.Server.Turns.{mine_turn}
use nakamato_blockchain.Server.Growth.{Mined, unchanged, extended, mine_turn-Mined}
use nakamato_blockchain.Server.Amounts.{
  HasInt64Block, HasInt64View, HasInt64Try, falsified-HasInt64Block, wait_for_block-HasInt64Block,
  search-HasInt64Block,
}
use nakamato_blockchain.Client.{UtxoEntry}
use nakamato_blockchain.Miner.{utxos_of, start_node, miner_main}
use nakamato_blockchain.Miner.Requests.{serve_http-Served}
use nakamato_blockchain.Miner.Events.{
  Event, transaction_came, block_came, request_came, turn_ended, after_event, after_events,
}
use nakamato_blockchain.Miner.Lifetime.{submit_transaction-blockchain}
use nakamato_blockchain.Generator.SameSet.{start_node-set}

-- The amounts of a message, which are int64 fields.
abbrev pub HasInt64Outs : GrpcTransaction → Type 0
HasInt64Outs tx = All (λ (u : GrpcUtxo). IsInt64 u.amount) tx.outputs

abbrev HasInt64Content : Option GrpcBlockContent → Type 0
HasInt64Content none = Unit
HasInt64Content (some c) = All HasInt64Outs c.transactions

abbrev HasInt64Message : Option GrpcBlock → Type 0
HasInt64Message none = Unit
HasInt64Message (some b) = HasInt64Content b.content

-- The amounts that come with an event are int64 values.
abbrev pub HasInt64Amounts : Event → Type 0
HasInt64Amounts (transaction_came tx) = Unit
HasInt64Amounts (block_came answer b hashes peer) = HasInt64Message b
HasInt64Amounts (request_came r) = Unit
HasInt64Amounts (turn_ended views tries) = All HasInt64View views × All HasInt64Try tries

outputs-HasInt64 :
    (us : List GrpcUtxo)
    → All (λ (u : GrpcUtxo). IsInt64 u.amount) us
    → All (λ (u : Utxo). IsInt64 u.amount) (map convert_grpc_to_utxo us)
unfolding convert_grpc_to_utxo
outputs-HasInt64 [] h = tt
outputs-HasInt64 (u ∷ us) (h, hs) = (h, outputs-HasInt64 us hs)

transactions-HasInt64 :
    (txs : List GrpcTransaction)
    → All HasInt64Outs txs
    → All HasInt64Outputs (map convert_grpc_to_transaction txs)
unfolding convert_grpc_to_transaction
transactions-HasInt64 [] h = tt
transactions-HasInt64 (tx ∷ txs) (h, hs) =
    (outputs-HasInt64 tx.outputs h, transactions-HasInt64 txs hs)

converted-HasInt64Block :
    (b : GrpcBlock) (c : Block)
    → HasInt64Content b.content
    → convert_grpc_to_block b ≡ ok c
    → HasInt64Block c
unfolding convert_grpc_to_block
converted-HasInt64Block b c h e = elim (Option-cases b.content) [
  | inl f ↦ absurd (ground (arith, e, f))
  | inr (k, f) ↦
      let small : All HasInt64Outs k.transactions = subst HasInt64Content f h in
      let same : map convert_grpc_to_transaction k.transactions ≡ c.content.transactions =
        ground (arith, e, f) in
      subst (All HasInt64Outputs) same (transactions-HasInt64 k.transactions small)
]

submit_block-supply :
    (p : Primitives) (answer : ℕ → Str → Option Block) (s : BlockchainServer) (b : Option GrpcBlock)
    (hashes : List Str) (peer : Str)
    → HasInt64Message b
    → supply (submit_block p answer s b hashes peer).server.blockchain.utxo_set
      ≤ supply s.blockchain.utxo_set
submit_block-supply p answer s b hashes peer h =
    elim (submit_block_cases p answer s b hashes peer) [
      | inl same ↦ omega (arith, ap (λ (t : BlockchainServer). supply t.blockchain.utxo_set) same)
      | inr (g, c, shape, converted, done) ↦
          let small = converted-HasInt64Block g c (subst HasInt64Message shape h) converted in
          subst
            (λ (r : Reply Bool). supply r.server.blockchain.utxo_set ≤ supply s.blockchain.utxo_set)
            (sym done) (handle_block_submission-supply p answer s c hashes peer small)
    ]

Mined-supply :
    (p : Primitives) (bc after : Blockchain)
    → Mined p HasInt64Block bc after
    → supply after.utxo_set ≤ supply bc.utxo_set
Mined-supply p bc _ unchanged = omega arith
Mined-supply p bc _ (extended b small) =
    let le = add_block-supply p bc.utxo_set b small in unfold add_block in ground (arith, le)

module _ (p : Primitives) (split_host_port : Str → Option (Str × Str)) (dial : Str → Option ℕ) where
  turn-supply :
      (s : BlockchainServer) (views : List View) (tries : List Try)
      → All HasInt64View views × All HasInt64Try tries
      → supply (after_event p split_host_port dial s (turn_ended views tries)).blockchain.utxo_set
        ≤ supply s.blockchain.utxo_set
  unfolding after_event
  turn-supply s views tries (h, k) = elim (Option-cases (mine_turn p views tries s)) [
    | inl e ↦ rw e (omega arith)
    | inr (reply, e) ↦ rw e (
        Mined-supply p s.blockchain reply.server.blockchain (
          mine_turn-Mined p HasInt64Block views tries s reply
            (λ b c hash waited searched.
              let small =
                search-HasInt64Block p b c hash tries k
                  (wait_for_block-HasInt64Block p views b h waited) searched in
              (small, falsified-HasInt64Block s.mode (found c hash) small))
            e))
  ]

  after_event-supply :
      (s : BlockchainServer) (e : Event)
      → HasInt64Amounts e
      → supply (after_event p split_host_port dial s e).blockchain.utxo_set
        ≤ supply s.blockchain.utxo_set
  unfolding after_event
  after_event-supply s (transaction_came tx) h =
      let same = submit_transaction-blockchain p split_host_port dial s tx in
      omega (arith, ap (λ (c : Blockchain). supply c.utxo_set) same)
  after_event-supply s (block_came answer b hashes peer) h =
      submit_block-supply p answer s b hashes peer h
  after_event-supply s (request_came r) h =
      let served = serve_http-Served split_host_port dial s r in
      omega (arith, ap (λ (c : Blockchain). supply c.utxo_set) served.chain_kept)
  after_event-supply s (turn_ended views tries) h = turn-supply s views tries h

  after_events-supply :
      (s : BlockchainServer) (es : List Event)
      → All HasInt64Amounts es
      → supply (after_events p split_host_port dial s es).blockchain.utxo_set
        ≤ supply s.blockchain.utxo_set
  unfolding after_events
  after_events-supply s [] h = omega arith
  after_events-supply s (e ∷ es) (h, hs) = omega (
    arith,
    after_event-supply s e h,
    after_events-supply (after_event p split_host_port dial s e) es hs,
  )

supply-add_utxos : (us : List Utxo) (u : UtxoSet) → supply (add_utxos u us) ≡ supply u + value us
unfolding add_utxos value
supply-add_utxos [] u = omega arith
supply-add_utxos (x ∷ us) u = omega (arith, supply-add_utxos us (add_utxo u x), supply-add_utxo u x)

supply-new_utxo_set : supply new_utxo_set ≡ 0
unfolding supply new_utxo_set
supply-new_utxo_set = refl

-- A miner never holds more money than its file: after any transactions and blocks from peers, HTTP
-- requests and turns of mining, in any order, its UTXO set is worth at most what the UTXOs in the
-- file are worth, where the output amounts that came in are int64 values.
pub miner_main-supply :
    (p : Primitives) (split_host_port : Str → Option (Str × Str)) (dial : Str → Option ℕ)
    (atoi : Str → ℤ) (files : Str → Option (List UtxoEntry)) (now : ℤ)
    (program utxo_file http_port grpc_port mode : Str) (addresses : List Str)
    (entries : List UtxoEntry) (s : BlockchainServer) (es : List Event)
    → files utxo_file ≡ some entries
    → miner_main split_host_port dial p atoi files now
        (program ∷ utxo_file ∷ http_port ∷ grpc_port ∷ mode ∷ addresses)
      ≡ some s
    → All HasInt64Amounts es
    → supply (after_events p split_host_port dial s es).blockchain.utxo_set
      ≤ value (utxos_of entries)
unfolding miner_main
miner_main-supply p split_host_port dial atoi files now program utxo_file http_port grpc_port mode
      addresses entries s es saved started small =
    let begun = start_node-set split_host_port dial p now (atoi mode) entries addresses s (
      ap (λ f. start_node split_host_port dial p now f (atoi mode) addresses) (sym saved)
      ∙ started) in
    omega (
      arith,
      after_events-supply p split_host_port dial s es small,
      ap supply begun,
      supply-add_utxos (utxos_of entries) new_utxo_set,
      supply-new_utxo_set,
    )
