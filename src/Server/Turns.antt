-- ===== src/Server/Turns.antt =====
-- internal/server/blockchainserver.go: a whole turn of the goroutine of `MineBlocks`, from the wait for a
-- transaction to the announcement of the block.
use nakamato_blockchain.Base.{
  ◌≡◌, ◌⊎◌, ap, ◌∙◌, inl, inr, Option, none, some, List, [], arith, Option-cases,
}
use nakamato_blockchain.Base.Text.{Str}
use nakamato_blockchain.Types.{Block, returned, failed, panicked, outcome, ok, err, panic}
use nakamato_blockchain.Crypto.{Primitives}
use nakamato_blockchain.Server.{BlockchainServer, Reply}
use nakamato_blockchain.Server.Mining.{Turn, next, mined_block}
use nakamato_blockchain.Server.Search.{View, wait_for_block, Try, search}

-- The node is given as it is when the search has ended. None if no transaction or no hash was found.
unfoldable pub mine_turn :
    Primitives → List View → List Try → BlockchainServer → Option (Reply Turn)
mine_turn p views tries s = elim (wait_for_block p views) [
  | none ↦ none
  | some (err _) ↦ some (record { result = ok next; server = s; sent = [] })
  | some panic ↦ some (record { result = panic; server = s; sent = [] })
  | some (ok b) ↦ elim (search p b tries) [
    | none ↦ none
    | some (ok (c, hash)) ↦ some (mined_block p s c hash)
    | some (err _) ↦ some (record { result = panic; server = s; sent = [] })
    | some panic ↦ some (record { result = panic; server = s; sent = [] })
  ]
]

-- A turn leaves the node as it was, or ends with the block that the search has found.
pub mine_turn_cases :
    (p : Primitives) (views : List View) (tries : List Try) (s : BlockchainServer)
    (reply : Reply Turn)
    → mine_turn p views tries s ≡ some reply
    → (reply.server ≡ s)
      ⊎ ((b c : Block) × (hash : Str) × (wait_for_block p views ≡ some (ok b))
          × (search p b tries ≡ some (ok (c, hash)))
          × (reply ≡ mined_block p s c hash))
unfolding mine_turn
mine_turn_cases p views tries s reply h = elim (Option-cases (wait_for_block p views)) [
  | inl e ↦ absurd (ground (arith, h, e))
  | inr (r, e) ↦ elim (outcome r) [
    | failed why f ↦ inl (ground (arith, h, e, f))
    | panicked f ↦ inl (ground (arith, h, e, f))
    | returned b f ↦ elim (Option-cases (search p b tries)) [
      | inl g ↦ absurd (ground (arith, h, e, f, g))
      | inr (found_one, g) ↦ elim (outcome found_one) [
        | failed why k ↦ inl (ground (arith, h, e, f, g, k))
        | panicked k ↦ inl (ground (arith, h, e, f, g, k))
        | returned (c, hash) k ↦
            inr (b, c, hash, e ∙ ap some f, g ∙ ap some k, ground (arith, h, e, f, g, k))
      ]
    ]
  ]
]
