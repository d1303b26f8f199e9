-- ===== src/Server/Search.antt =====
-- internal/server/blockchainserver.go: the search of `MineBlocks` for a nonce, and the wait for a
-- transaction. What the node is at each turn, since its handlers run beside the search, and what is
-- drawn and read from the clock, are arguments; the search has one try for each number drawn.
pub mod Ready
pub mod Found
use nakamato_blockchain.Base.{
  ℕ, ◌%◌, ◌==◌, ◌≡◌, ◌≢◌, refl, sym, ap, subst, true, false, Option, none, some, List, [], ◌∷◌,
  ◌++◌, All, arith, length, get_last?, Option-cases, ◌⊎◌, inl, inr, if◌then◌else◌, ◌∙◌,
}
use nakamato_blockchain.Base.Int.{ℤ, pos, leb_ℤ}
use nakamato_blockchain.Base.Text.{Str}
use nakamato_blockchain.Types.{
  Transaction, BlockHeader, Block, Error, Outcome, returned, failed, panicked, outcome, Result, ok,
  err, panic, ◌>>=◌,
}
use nakamato_blockchain.Crypto.{Primitives, block_header, hash_of}
use nakamato_blockchain.Block
use nakamato_blockchain.Block.{calculate_content_hash, calculate_hash, verify_hash, new_block}
use nakamato_blockchain.Block.Validity.{new_block-unmined}
use nakamato_blockchain.Blockchain.{Blockchain, get_last_block, create_block, hash_or_empty}
use nakamato_blockchain.Difficulty.{get_difficulty}
use nakamato_blockchain.TransactionPool.{get_up_to_n_transactions}
use nakamato_blockchain.Server.{BlockchainServer}
use nakamato_blockchain.Server.Mining.{create_block_with_transactions, found}

-- The node at one turn of `createBlockWithTransactions`, the clock, and the order in which the pool is
-- visited.
pub record View : Type 0 where
  pub server : BlockchainServer
  pub now : ℤ
  pub order : List Transaction

-- The loop of `createBlockWithTransactions`; none if it has found no transaction yet.
unfoldable pub wait_for_block : Primitives → List View → Option (Result Block)
wait_for_block p [] = none
wait_for_block p (v ∷ vs) = elim (create_block_with_transactions p v.now v.server v.order) [
  | none ↦ wait_for_block p vs
  | some r ↦ some r
]

-- One round of the search: the number drawn, the node as it then is, and the turns of the wait if the
-- chain has advanced.
pub record Try : Type 0 where
  pub drawn : ℕ
  pub server : BlockchainServer
  pub views : List View

abbrev pub nonce_of : Try → ℕ
nonce_of t = t.drawn % 100000000000

abbrev pub with_nonce : ℤ → Block → Block
with_nonce n b = record b { header = record b.header { nonce = n } }

-- `hash, _ := block.CalculateHash()`: the empty text on an error.
abbrev pub hash_text : Result Str → Str
hash_text (ok s) = s
hash_text (err _) = []
hash_text panic = []

-- A block that could not be created is nil, which the test of the loop reads.
abbrev renewed : Option (Result Block) → Option (Result Block)
renewed (some (err _)) = some panic
renewed r = r

-- The body of the loop, up to the hash.
unfoldable pub next_candidate : Primitives → Block → Try → Option (Result Block)
next_candidate p b t =
    let c = with_nonce (pos (nonce_of t)) b in
    if nonce_of t % 10000 == 0
    then elim (get_last_block t.server.blockchain) [
      | none ↦ some panic
      | some last ↦
          if leb_ℤ c.header.height last.header.height
          then renewed (wait_for_block p t.views)
          else some (ok c)
    ]
    else some (ok c)

-- The search from a block: the block as it then is and its hash; none if the tries were not enough.
unfoldable pub search : Primitives → Block → List Try → Option (Result (Block × Str))
search p b [] =
    let hash = hash_text (calculate_hash p b) in
    if verify_hash p b hash then some (ok (b, hash)) else none
search p b (t ∷ ts) =
    let hash = hash_text (calculate_hash p b) in
    if verify_hash p b hash then some (ok (b, hash)) else elim (next_candidate p b t) [
      | none ↦ none
      | some (ok c) ↦ search p c ts
      | some (err e) ↦ some (err e)
      | some panic ↦ some panic
    ]
