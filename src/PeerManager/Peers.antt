-- ===== src/PeerManager/Peers.antt =====
-- What `AddPeers` does to the table of peers.
use nakamato_blockchain.Base.{
  ◌≡◌, ◌⊎◌, inl, inr, refl, sym, ap, subst, true, Option, none, some, List, [], ◌∷◌, arith, map, ℕ,
  if◌then◌else◌, ◌∙◌, Bool-cases, Option-cases,
}
use nakamato_blockchain.Base.Text.{Str, Str-discrete, str_eq}
use nakamato_blockchain.Base.Dict.{lookup, lookup-insert, insert}
use nakamato_blockchain.PeerManager.{
  PeerManager, with_port, is_host_port, add_peer, add_parts, add_peers, split_from, trim_space,
}

module _ (split_host_port : Str → Option (Str × Str)) (dial : Str → Option ℕ) where
  -- A table that has grown: what was there is still there, and what is new was dialled.
  pub record Grown (pm after : PeerManager) : Type 0 where
    pub kept :
        (address : Str) (conn : ℕ)
        → lookup address pm.peer_clients ≡ some conn
        → lookup address after.peer_clients ≡ some conn
    pub dialled :
        (address : Str) (conn : ℕ)
        → lookup address after.peer_clients ≡ some conn
        → (lookup address pm.peer_clients ≡ some conn)
          ⊎ ((dial address ≡ some conn) × (is_host_port (split_host_port address) ≡ true))
    pub blacklist_kept : after.blacklisted ≡ pm.blacklisted
    pub counts_kept : after.invalid_count ≡ pm.invalid_count

  pub Grown-refl : (pm : PeerManager) → Grown pm pm
  Grown-refl pm = record {
    kept = λ a c e. e;
    dialled = λ a c e. inl e;
    blacklist_kept = refl;
    counts_kept = refl;
  }

  pub Grown-trans : (a b c : PeerManager) → Grown a b → Grown b c → Grown a c
  Grown-trans a b c g h = record {
    kept = λ x k e. h.kept x k (g.kept x k e);
    dialled = λ x k e. elim (h.dialled x k e) [ inl old ↦ g.dialled x k old | inr new ↦ inr new ];
    blacklist_kept = h.blacklist_kept ∙ g.blacklist_kept;
    counts_kept = h.counts_kept ∙ g.counts_kept;
  }

  inserted-dialled :
      (pm : PeerManager) (address : Str) (conn : ℕ) (a : Str) (c : ℕ)
      → dial address ≡ some conn
      → is_host_port (split_host_port address) ≡ true
      → lookup a (insert address conn pm.peer_clients) ≡ some c
      → (lookup a pm.peer_clients ≡ some c)
        ⊎ ((dial a ≡ some c) × (is_host_port (split_host_port a) ≡ true))
  inserted-dialled pm address conn a c answered named e = elim (Str-discrete a address) [
    | yes same ↦
        let inserted = lookup-insert address a conn pm.peer_clients in
        let its : some conn ≡ some c = ground (arith, e, inserted, same) in
        inr (ap dial same ∙ answered ∙ its, ap (λ x. is_host_port (split_host_port x)) same ∙ named)
    | no other ↦ inl (ground (arith, e, other, lookup-insert address a conn pm.peer_clients))
  ]

  insert-Grown :
      (pm : PeerManager) (address : Str) (conn : ℕ)
      → lookup address pm.peer_clients ≡ none
      → dial address ≡ some conn
      → is_host_port (split_host_port address) ≡ true
      → Grown pm (record pm { peer_clients = insert address conn pm.peer_clients })
  insert-Grown pm address conn absent answered named = record {
    kept = λ a c e. ground (arith, e, absent, lookup-insert address a conn pm.peer_clients);
    dialled = λ a c e. inserted-dialled pm address conn a c answered named e;
    blacklist_kept = refl;
    counts_kept = refl;
  }

  -- The call leaves the table, or puts the connection of a new address into it.
  add_peer_cases :
      (pm : PeerManager) (address : Str) (conn : ℕ)
      → dial (with_port address) ≡ some conn
      → ((add_peer split_host_port dial pm address).1 ≡ pm)
        ⊎ ((lookup (with_port address) pm.peer_clients ≡ none)
            × (is_host_port (split_host_port (with_port address)) ≡ true)
            × ((add_peer split_host_port dial pm address).1
                ≡ record pm { peer_clients = insert (with_port address) conn pm.peer_clients }))
  unfolding add_peer
  add_peer_cases pm address conn answered = ground (arith, answered)

  add_peer-none :
      (pm : PeerManager) (address : Str)
      → dial (with_port address) ≡ none
      → (add_peer split_host_port dial pm address).1 ≡ pm
  unfolding add_peer
  add_peer-none pm address silent = ground (arith, silent)

  add_peer-Grown :
      (pm : PeerManager) (address : Str) → Grown pm (add_peer split_host_port dial pm address).1
  add_peer-Grown pm address = elim (Option-cases (dial (with_port address))) [
    | inl silent ↦ subst (Grown pm) (sym (add_peer-none pm address silent)) (Grown-refl pm)
    | inr (conn, answered) ↦ elim (add_peer_cases pm address conn answered) [
      | inl e ↦ subst (Grown pm) (sym e) (Grown-refl pm)
      | inr (absent, named, e) ↦
          subst (Grown pm) (sym e) (insert-Grown pm (with_port address) conn absent answered named)
    ]
  ]

  add_parts-Grown :
      (parts : List Str) (pm : PeerManager) → Grown pm (add_parts split_host_port dial pm parts)
  unfolding add_parts
  add_parts-Grown [] pm = Grown-refl pm
  add_parts-Grown (part ∷ parts) pm =
      let next = if str_eq part [] then pm else (add_peer split_host_port dial pm part).1 in
      let first : Grown pm next = elim (Bool-cases (str_eq part [])) [
        | inl empty ↦ rw empty (Grown-refl pm)
        | inr some_part ↦ rw some_part (add_peer-Grown pm part)
      ] in
      Grown-trans pm next (add_parts split_host_port dial next parts) first
        (add_parts-Grown parts next)

  pub add_peers-Grown :
      (addresses : List Str) (pm : PeerManager)
      → Grown pm (add_peers split_host_port dial pm addresses)
  unfolding add_peers
  add_peers-Grown [] pm = Grown-refl pm
  add_peers-Grown (address ∷ addresses) pm =
      let next = add_parts split_host_port dial pm (map trim_space (split_from [] address)) in
      Grown-trans pm next (add_peers split_host_port dial next addresses)
        (add_parts-Grown (map trim_space (split_from [] address)) pm)
        (add_peers-Grown addresses next)

  -- `AddPeers` changes the table of peers at an address only where it had none, and then to the
  -- connection that dialling this address returned, where it has a host and a port. It leaves the
  -- blacklist and the counts as they were.
  pub add_peers-lookup :
      (addresses : List Str) (pm : PeerManager) (address : Str)
      → let after = add_peers split_host_port dial pm addresses in
        ((lookup address after.peer_clients ≡ lookup address pm.peer_clients)
          ⊎ ((conn : ℕ) × (lookup address pm.peer_clients ≡ none)
              × (lookup address after.peer_clients ≡ some conn)
              × (dial address ≡ some conn)
              × (is_host_port (split_host_port address) ≡ true)))
        × (after.blacklisted ≡ pm.blacklisted)
        × (after.invalid_count ≡ pm.invalid_count)
  add_peers-lookup addresses pm address =
      let g = add_peers-Grown addresses pm in
      let after = add_peers split_host_port dial pm addresses in
      (
        elim (Option-cases (lookup address pm.peer_clients)) [
          | inr (c, e) ↦ inl (g.kept address c e ∙ sym e)
          | inl e ↦ elim (Option-cases (lookup address after.peer_clients)) [
            | inl f ↦ inl (f ∙ sym e)
            | inr (c, f) ↦ elim (g.dialled address c f) [
              | inl old ↦ absurd (cc (old, e))
              | inr (answered, named) ↦ inr (c, e, f, answered, named)
            ]
          ]
        ],
        g.blacklist_kept,
        g.counts_kept,
      )
