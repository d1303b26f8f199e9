-- ===== src/Miner/Requests.antt =====
-- What HTTP requests can do to a node.
use nakamato_blockchain.Base.{
  ℕ, ◌≡◌, ◌⊎◌, refl, sym, ap, subst, ◌∙◌, inl, inr, Bool, true, false, Option, some, List, [], ◌∷◌,
  arith, if◌then◌else◌, Bool-cases, Option-cases, ◌&&◌,
}
use nakamato_blockchain.Base.Text.{Str, codes, str_eq}
use nakamato_blockchain.PeerManager.{add_peers}
use nakamato_blockchain.PeerManager.Peers.{Grown, Grown-refl, Grown-trans, add_peers-Grown}
use nakamato_blockchain.Server.{BlockchainServer}
use nakamato_blockchain.Server.Mining.{start_mining, stop_mining}
use nakamato_blockchain.Server.Contexts.{
  Among, IsSteady, start_mining-IsSteady, stop_mining-IsSteady,
}
use nakamato_blockchain.Miner.{
  HttpRequest, handle_add_peers, handle_mine_blocks, handle_stop_mining, serve_http, serve_requests,
}

-- Whether the flag is set after the requests: as the last POST to one of the two paths says.
unfoldable pub mining_after : Bool → List HttpRequest → Bool
mining_after mining [] = mining
mining_after mining (r ∷ rs) =
    mining_after
      (if r.is_post && str_eq r.path (codes "/mineblocks")
        then true
        else if r.is_post && str_eq r.path (codes "/stopmining")
        then false
        else mining)
      rs

module _ (split_host_port : Str → Option (Str × Str)) (dial : Str → Option ℕ) where
  -- What a request leaves.
  pub record Served (s after : BlockchainServer) (rs : List HttpRequest) : Type 0 where
    pub chain_kept : after.blockchain ≡ s.blockchain
    pub pool_kept : after.tx_pool ≡ s.tx_pool
    pub mode_kept : after.mode ≡ s.mode
    pub peers_grown : Grown split_host_port dial s.peer_manager after.peer_manager

  serve_http-peers :
      (s : BlockchainServer) (r : HttpRequest)
      → ((serve_http split_host_port dial s r).1.peer_manager ≡ s.peer_manager)
        ⊎ ((addresses : List Str) × ((serve_http split_host_port dial s r).1.peer_manager
              ≡ add_peers split_host_port dial s.peer_manager addresses))
  unfolding serve_http handle_add_peers handle_mine_blocks handle_stop_mining start_mining
      stop_mining
  serve_http-peers s r = elim (Bool-cases (str_eq r.path (codes "/addpeers") && r.is_post)) [
    | inr other ↦ inl (ground (arith, other))
    | inl adding ↦ elim (Option-cases r.body) [
      | inl e ↦ inl (ground (arith, adding, e))
      | inr (addresses, e) ↦ inr (addresses, ground (arith, adding, e))
    ]
  ]

  pub serve_http-Served :
      (s : BlockchainServer) (r : HttpRequest)
      → Served s (serve_http split_host_port dial s r).1 (r ∷ [])
  unfolding serve_http handle_add_peers handle_mine_blocks handle_stop_mining start_mining
      stop_mining
  serve_http-Served s r = record {
    chain_kept = ground arith;
    pool_kept = ground arith;
    mode_kept = ground arith;
    peers_grown = elim (serve_http-peers s r) [
      | inl e ↦
          subst (Grown split_host_port dial s.peer_manager) (sym e)
            (Grown-refl split_host_port dial s.peer_manager)
      | inr (addresses, e) ↦
          subst (Grown split_host_port dial s.peer_manager) (sym e)
            (add_peers-Grown split_host_port dial addresses s.peer_manager)
    ];
  }

  serve_requests-Served :
      (s : BlockchainServer) (rs : List HttpRequest)
      → Served s (serve_requests split_host_port dial s rs) rs
  unfolding serve_requests
  serve_requests-Served s [] = record {
    chain_kept = refl;
    pool_kept = refl;
    mode_kept = refl;
    peers_grown = Grown-refl split_host_port dial s.peer_manager;
  }
  serve_requests-Served s (r ∷ rs) =
      let m = (serve_http split_host_port dial s r).1 in
      let first = serve_http-Served s r in
      let rest = serve_requests-Served m rs in
      record {
        chain_kept = rest.chain_kept ∙ first.chain_kept;
        pool_kept = rest.pool_kept ∙ first.pool_kept;
        mode_kept = rest.mode_kept ∙ first.mode_kept;
        peers_grown =
            Grown-trans split_host_port dial s.peer_manager m.peer_manager _ first.peers_grown
              rest.peers_grown;
      }

  -- What a request does to the flag and the contexts.
  data Told (s : BlockchainServer) (r : HttpRequest) (after : BlockchainServer) : Type 0 where
    kept :
        after ≡ record s { peer_manager = after.peer_manager }
        → mining_after s.mining (r ∷ []) ≡ s.mining
        → Told s r after
    begun : after ≡ (start_mining s).1 → mining_after s.mining (r ∷ []) ≡ true → Told s r after
    ended : after ≡ (stop_mining s).1 → mining_after s.mining (r ∷ []) ≡ false → Told s r after

  serve_http-Told :
      (s : BlockchainServer) (r : HttpRequest) → Told s r (serve_http split_host_port dial s r).1
  unfolding serve_http handle_add_peers handle_mine_blocks handle_stop_mining mining_after
  serve_http-Told s r = elim (Bool-cases (r.is_post && str_eq r.path (codes "/mineblocks"))) [
    | inl mine ↦ begun (ground (arith, mine)) (ground (arith, mine))
    | inr other ↦ elim (Bool-cases (r.is_post && str_eq r.path (codes "/stopmining"))) [
      | inl stop ↦ ended (ground (arith, stop)) (ground (arith, stop))
      | inr neither ↦ kept (ground (arith, other, neither)) (ground (arith, other, neither))
    ]
  ]

  start_mining-mining : (s : BlockchainServer) → (start_mining s).1.mining ≡ true
  unfolding start_mining
  start_mining-mining s = ground arith

  serve_http-IsSteady :
      (s : BlockchainServer) (r : HttpRequest)
      → IsSteady s
      → let after = (serve_http split_host_port dial s r).1 in
        IsSteady after × (after.mining ≡ mining_after s.mining (r ∷ []))
  serve_http-IsSteady s r v = elim (serve_http-Told s r) [
    | kept e told ↦ (
      subst IsSteady (sym e) (record { held = v.held; given = v.given; below = v.below }),
      ap (λ (t : BlockchainServer). t.mining) e ∙ sym told,
    )
    | begun e told ↦ (
      subst IsSteady (sym e) (start_mining-IsSteady s v),
      ap (λ (t : BlockchainServer). t.mining) e ∙ start_mining-mining s ∙ sym told,
    )
    | ended e told ↦
        let (steady, clear) = stop_mining-IsSteady s v in
        (
          subst IsSteady (sym e) steady,
          ap (λ (t : BlockchainServer). t.mining) e ∙ clear ∙ sym told,
        )
  ]

  serve_requests-IsSteady :
      (s : BlockchainServer) (rs : List HttpRequest)
      → IsSteady s
      → let after = serve_requests split_host_port dial s rs in
        IsSteady after × (after.mining ≡ mining_after s.mining rs)
  unfolding serve_requests mining_after
  serve_requests-IsSteady s [] v = (v, refl)
  serve_requests-IsSteady s (r ∷ rs) v =
      let (first, told) = serve_http-IsSteady s r v in
      let (rest, later) =
        serve_requests-IsSteady (serve_http split_host_port dial s r).1 rs first in
      (rest, later ∙ ap (λ b. mining_after b rs) told)

  -- Whatever HTTP requests a miner serves, one after the other, with no return of a mining
  -- goroutine from the first to the last, its chain, UTXO set, pool, mode, blacklist and counts
  -- stay as they were, its mining flag is after them as the last POST to /mineblocks or /stopmining
  -- says, or as before if there was none, and while the flag is set, `cancelFunc` is that of a
  -- context that is not cancelled. At the first request the last of these holds, and the contexts
  -- have numbers below that of the next.
  pub serve_requests_effect :
      (s : BlockchainServer) (rs : List HttpRequest)
      → IsSteady s
      → let after = serve_requests split_host_port dial s rs in
        (after.blockchain ≡ s.blockchain)
        × (after.tx_pool ≡ s.tx_pool)
        × (after.mode ≡ s.mode)
        × (after.mining ≡ mining_after s.mining rs)
        × (after.mining ≡ true → (i : ℕ) × (after.cancel_func ≡ some i) × ¬ Among i after.cancelled)
        × (after.peer_manager.blacklisted ≡ s.peer_manager.blacklisted)
        × (after.peer_manager.invalid_count ≡ s.peer_manager.invalid_count)
  serve_requests_effect s rs v =
      let served = serve_requests-Served s rs in
      let (steady, told) = serve_requests-IsSteady s rs v in
      (
        served.chain_kept, served.pool_kept, served.mode_kept, told, steady.held,
        served.peers_grown.blacklist_kept, served.peers_grown.counts_kept,
      )
