-- ===== src/Fork.antt =====
-- internal/blockchain/blockchain.go: `HandleFork` and what it calls. `requestBlock` is a parameter, a
-- nil block is none.
pub mod Heights
pub mod Ancestor
pub mod Switch
pub mod Limits
pub mod Loss
use mathlib.Core.List.{reverse}
use nakamato_blockchain.Base.{
  ℕ, zero, suc, ◌+◌, Bool, true, false, Option, none, some, List, [], ◌∷◌, ◌++◌, ltb, length,
  get_elem?, if◌then◌else◌,
}
use nakamato_blockchain.Base.Text.{Str, str_eq}
use nakamato_blockchain.Base.Dict.{Dict, lookup, insert}
use nakamato_blockchain.Types.{
  Block, Error, common_ancestor_not_found, no_blocks_to_replace, rollback_failed,
  invalid_fork_blocks, replace_failed, Result, ok, err, panic, ◌>>=◌,
}
use nakamato_blockchain.Crypto.{Primitives}
use nakamato_blockchain.Blockchain.{
  Blockchain, validate_blocks, rollback_to_hash, get_last_100_hashes,
}

-- `bcHashToHeight`, filled from index i on.
unfoldable pub hash_to_height : ℕ → List Block → Dict ℕ → Dict ℕ
hash_to_height i [] d = d
hash_to_height i (b ∷ bs) d = hash_to_height (suc i) bs (insert b.hash i d)

-- `h > bestHeight`, where no height was found yet.
abbrev pub higher : Option ℕ → Option ℕ → Option ℕ
higher none best = best
higher (some h) none = some h
higher (some h) (some b) = if ltb b h then some h else some b

unfoldable pub best_height : Dict ℕ → Option ℕ → List Str → Option ℕ
best_height d best [] = best
best_height d best (hash ∷ hashes) = best_height d (higher (lookup hash d) best) hashes

abbrev block_of : List Block → Option ℕ → Option Block
block_of blocks none = none
block_of blocks (some h) = get_elem? blocks h

unfoldable pub find_common_ancestor : Blockchain → List Str → Option Block
unfolding hash_to_height best_height
find_common_ancestor bc incoming_hashes =
    block_of bc.blocks (best_height (hash_to_height 0 bc.blocks []) none incoming_hashes)

unfoldable pub compute_work : List Str → Str → ℕ
compute_work hashes end_hash = length hashes

-- The hashes are requested from the last back to the start hash.
unfoldable pub request_from : Str → (Str → Option Block) → List Str → List (Option Block)
request_from start_hash request [] = []
request_from start_hash request (hash ∷ hashes) =
    let rest = request_from start_hash request hashes in
    if str_eq hash start_hash then [] else request hash ∷ rest

unfoldable pub request_missing_blocks : List Str → Str → (Str → Option Block) → List (Option Block)
unfolding request_from
request_missing_blocks incoming_hashes start_hash request =
    reverse (request_from start_hash request (reverse incoming_hashes))

abbrev append_to : List Block → Result (List Block) × Blockchain → Result (Unit {0}) × Blockchain
append_to missing (ok _, bc) = (ok tt, record bc { blocks = bc.blocks ++ missing })
append_to missing (err _, bc) = (err rollback_failed, bc)
append_to missing (panic, bc) = (panic, bc)

unfoldable pub replace_with_fork : Blockchain → List Block → Result (Unit {0}) × Blockchain
replace_with_fork bc [] = (err no_blocks_to_replace, bc)
replace_with_fork bc (b ∷ bs) = append_to (b ∷ bs) (rollback_to_hash bc b.header.previous_hash)

-- The blocks, if none of them is nil.
unfoldable pub all_some {ℓ} : {A : Type ℓ} → List (Option A) → Option (List A)
all_some [] = some []
all_some (none ∷ os) = none
all_some (some a ∷ os) = elim (all_some os) [ none ↦ none | some as' ↦ some (a ∷ as') ]

abbrev replaced : Result (Unit {0}) × Blockchain → Result (Unit {0}) × Blockchain
replaced (ok _, bc) = (ok tt, bc)
replaced (err _, bc) = (err replace_failed, bc)
replaced (panic, bc) = (panic, bc)

-- After `ValidateBlocks` has returned, no block is nil.
abbrev replace_validated :
    Blockchain → Option (List Block) → Result (Unit {0}) → Result (Unit {0}) × Blockchain
replace_validated bc missing (err _) = (err invalid_fork_blocks, bc)
replace_validated bc missing panic = (panic, bc)
replace_validated bc none (ok _) = (panic, bc)
replace_validated bc (some blocks) (ok _) = replaced (replace_with_fork bc blocks)

unfoldable pub handle_fork :
    Primitives → Blockchain → List Str → (Str → Option Block) → Result (Unit {0}) × Blockchain
handle_fork p bc incoming_hashes request = elim (find_common_ancestor bc incoming_hashes) [
  | none ↦ (err common_ancestor_not_found, bc)
  | some ancestor ↦
      let main_chain_work = compute_work (get_last_100_hashes bc) ancestor.hash in
      let fork_chain_work = compute_work incoming_hashes ancestor.hash in
      let missing = request_missing_blocks incoming_hashes ancestor.hash request in
      if ltb main_chain_work fork_chain_work
      then replace_validated bc (all_some missing) (validate_blocks p bc missing)
      else (ok tt, bc)
]
