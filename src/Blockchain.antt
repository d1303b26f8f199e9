-- ===== src/Blockchain.antt =====
-- internal/blockchain/blockchain.go: the chain of one node. `GetDifficulty` is in Difficulty.antt, the
-- handling of forks in Fork.antt.
pub mod Growth
pub mod Audit
pub mod Depth
pub mod Rollback
pub mod Lookup
use mathlib.Core.List.{reverse}
use nakamato_blockchain.Base.{
  ℕ, zero, suc, ◌+◌, ◌-◌, Bool, true, false, not, ◌&&◌, Option, none, some, List, [], ◌∷◌, ◌++◌,
  map, ltb, length, drop, get_elem?, get_last?, if◌then◌else◌,
}
use nakamato_blockchain.Base.Int.{ℤ, pos, negsuc, ◌+ℤ◌, eq_ℤ, wrap64}
use nakamato_blockchain.Base.Text.{Str, str_eq}
use nakamato_blockchain.Types.{
  Utxo, Transaction, Block, Error, block_verification_failed, previous_hash_mismatch,
  height_mismatch, ancestor_not_found, block_verification_failed_at, previous_hash_mismatch_at,
  Result, ok, err, panic, ◌>>=◌,
}
use nakamato_blockchain.Crypto.{Primitives}
use nakamato_blockchain.UtxoSet
use nakamato_blockchain.UtxoSet.{UtxoSet, new_utxo_set, add_utxos}
use nakamato_blockchain.Block
use nakamato_blockchain.Block.{new_block}
use nakamato_blockchain.Difficulty.{get_difficulty}

pub record Blockchain : Type 0 where
  pub blocks : List Block
  pub utxo_set : UtxoSet

-- A failure to make the genesis block is a panic.
abbrev or_panic_error {ℓ} : {A : Type ℓ} → Result A → Result A
or_panic_error (ok a) = ok a
or_panic_error (err _) = panic
or_panic_error panic = panic

unfoldable pub new_blockchain : Primitives → ℤ → List Utxo → Result Blockchain
new_blockchain p now initial_utxos =
    let utxo_set = add_utxos new_utxo_set initial_utxos in
    get_difficulty p [] 0 >>= λ difficulty.
    or_panic_error (new_block p now [] (pos 0) difficulty []) >>= λ genesis.
    ok (record { blocks = genesis ∷ []; utxo_set = utxo_set })

unfoldable pub get_last_block : Blockchain → Option Block
get_last_block bc = get_last? bc.blocks

-- The loop of `Verify`, from index i.
unfoldable pub verify_from : Primitives → List Block → ℕ → Str → List Block → Result Bool
verify_from p blocks i previous_hash [] = ok true
verify_from p blocks i previous_hash (b ∷ bs) =
    let rest = verify_from p blocks (suc i) b.hash bs in
    if not (eq_ℤ b.header.height (pos i))
    then ok false
    else if not (str_eq b.header.previous_hash previous_hash)
    then ok false
    else (get_difficulty p blocks i >>= λ difficulty.
        if not (str_eq b.header.difficulty difficulty)
        then ok false
        else if not (Block.verify p b)
        then ok false
        else rest)

unfoldable pub verify : Primitives → Blockchain → Result Bool
unfolding verify_from
verify p bc = verify_from p bc.blocks 0 [] bc.blocks

-- The loop of `ValidateBlocks`, from index i. A nil block is a panic in its `Verify`.
unfoldable pub validate_from : Primitives → ℕ → Str → List (Option Block) → Result (Unit {0})
validate_from p i previous_hash [] = ok tt
validate_from p i previous_hash (none ∷ bs) = panic
validate_from p i previous_hash (some b ∷ bs) =
    let rest = validate_from p (suc i) b.hash bs in
    if not (Block.verify p b)
    then err (block_verification_failed_at i)
    else if ltb 0 i && not (str_eq b.header.previous_hash previous_hash)
    then err (previous_hash_mismatch_at i)
    else rest

abbrev pub hash_or_empty : Option Block → Str
hash_or_empty none = []
hash_or_empty (some b) = b.hash

unfoldable pub validate_blocks : Primitives → Blockchain → List (Option Block) → Result (Unit {0})
unfolding validate_from
validate_blocks p bc bs = validate_from p 0 (hash_or_empty (get_last? bc.blocks)) bs

unfoldable pub any_hash : Str → List Transaction → Bool
any_hash tx_hash [] = false
any_hash tx_hash (tx ∷ txs) =
    let rest = any_hash tx_hash txs in if str_eq tx.hash tx_hash then true else rest

unfoldable pub any_block : Str → List Block → Bool
any_block tx_hash [] = false
any_block tx_hash (b ∷ bs) =
    let rest = any_block tx_hash bs in
    if any_hash tx_hash b.content.transactions then true else rest

unfoldable pub has_transaction : Blockchain → Str → Bool
unfolding any_block
has_transaction bc tx_hash = any_block tx_hash bc.blocks

-- The loop of `GetTransactionDepth` over the blocks, newest first; `depth` is `len(bc.Blocks) - i`.
unfoldable pub depth_from : Str → ℕ → List Block → ℤ
depth_from tx_hash depth [] = negsuc 0
depth_from tx_hash depth (b ∷ bs) =
    let rest = depth_from tx_hash (suc depth) bs in
    if any_hash tx_hash b.content.transactions then pos depth else rest

unfoldable pub get_transaction_depth : Blockchain → Str → ℤ
unfolding depth_from
get_transaction_depth bc tx_hash = depth_from tx_hash 1 (reverse bc.blocks)

unfoldable pub create_block : Primitives → ℤ → Blockchain → List Transaction → Result Block
create_block p now bc transactions =
    let previous_hash = hash_or_empty (get_last? bc.blocks) in
    let height = length bc.blocks in
    get_difficulty p bc.blocks height >>= λ difficulty.
    new_block p now previous_hash (pos height) difficulty transactions

unfoldable pub get_block_by_height : Blockchain → ℤ → Option Block
get_block_by_height bc (negsuc _) = none
get_block_by_height bc (pos height) = get_elem? bc.blocks height

unfoldable pub find_block : Str → List Block → Option Block
find_block hash [] = none
find_block hash (b ∷ bs) =
    let rest = find_block hash bs in if str_eq b.hash hash then some b else rest

unfoldable pub get_block_by_hash : Blockchain → Str → Option Block
unfolding find_block
get_block_by_hash bc hash = find_block hash bc.blocks

-- The tests of `AddBlock` against the last block.
unfoldable pub check_link : Option Block → Block → Result (Unit {0})
check_link none b = ok tt
check_link (some previous) b =
    if not (str_eq b.header.previous_hash previous.hash)
    then err previous_hash_mismatch
    else if not (eq_ℤ b.header.height (wrap64 (previous.header.height +ℤ pos 1)))
    then err height_mismatch
    else ok tt

abbrev append_block :
    Blockchain → Block → Result (Unit {0}) × UtxoSet → Result (Unit {0}) × Blockchain
append_block bc b (ok _, u) = (ok tt, record { blocks = bc.blocks ++ b ∷ []; utxo_set = u })
append_block bc b (err e, u) = (err e, record bc { utxo_set = u })
append_block bc b (panic, u) = (panic, record bc { utxo_set = u })

abbrev add_linked :
    Primitives → Blockchain → Block → Result (Unit {0}) → Result (Unit {0}) × Blockchain
add_linked p bc b (ok _) = append_block bc b (UtxoSet.add_block p bc.utxo_set b)
add_linked p bc b (err e) = (err e, bc)
add_linked p bc b panic = (panic, bc)

unfoldable pub add_block : Primitives → Blockchain → Block → Result (Unit {0}) × Blockchain
add_block p bc b =
    if not (Block.verify p b)
    then (err block_verification_failed, bc)
    else add_linked p bc b (check_link (get_last? bc.blocks) b)

-- The loop of `RollbackToHash` over the blocks, newest first: what is left, newest first, and what was
-- removed, in the order of removal.
unfoldable pub rollback_from : Str → List Block → List Block → List Block × List Block
rollback_from to_hash [] removed = ([], removed)
rollback_from to_hash (b ∷ bs) removed =
    let rest = rollback_from to_hash bs (removed ++ b ∷ []) in
    if str_eq b.hash to_hash then (b ∷ bs, removed) else rest

abbrev rolled_back : Blockchain → List Block × List Block → Result (List Block) × Blockchain
rolled_back bc ([], removed) = (err ancestor_not_found, record bc { blocks = [] })
rolled_back bc (b ∷ bs, removed) = (ok removed, record bc { blocks = reverse (b ∷ bs) })

unfoldable pub rollback_to_hash : Blockchain → Str → Result (List Block) × Blockchain
unfolding rollback_from
rollback_to_hash bc to_hash = rolled_back bc (rollback_from to_hash (reverse bc.blocks) [])

abbrev pub hashes_of : List Block → List Str
hashes_of = map (λ b. b.hash)

unfoldable pub get_last_100_hashes : Blockchain → List Str
get_last_100_hashes bc =
    let start = if ltb 100 (length bc.blocks) then length bc.blocks - 100 else 0 in
    hashes_of (drop start bc.blocks)
