-- ===== src/TransactionPool.antt =====
-- internal/blockchain/transactionpool.go. Go visits the entries of a map in any order: where the result
-- depends on it, the order of the visit is an argument.
pub mod Stale
pub mod Choice
use nakamato_blockchain.Base.{
  ℕ, zero, suc, ◌+◌, Bool, true, false, Option, none, some, List, [], ◌∷◌, ◌++◌, if◌then◌else◌,
}
use nakamato_blockchain.Base.Int.{ℤ, pos, leb_ℤ}
use nakamato_blockchain.Base.Text.{Str}
use nakamato_blockchain.Base.Dict.{Dict, lookup, contains, insert, erase}
use nakamato_blockchain.Types.{
  Transaction, Block, Error, transaction_exists, transaction_not_found, pool_empty, Result, ok, err,
}
use nakamato_blockchain.Crypto.{Primitives}
use nakamato_blockchain.UtxoSet.{UtxoSet, check_transaction}

-- The pending transactions by their hashes.
pub record TransactionPool : Type 0 where
  pub transactions : Dict Transaction

unfoldable pub new_transaction_pool : TransactionPool
new_transaction_pool = record { transactions = [] }

-- The transactions in the order in which the map's keys are visited.
unfoldable pub get_all_transactions : TransactionPool → List Str → List Transaction
get_all_transactions tp [] = []
get_all_transactions tp (hash ∷ order) =
    let rest = get_all_transactions tp order in
    elim (lookup hash tp.transactions) [ none ↦ rest | some tx ↦ tx ∷ rest ]

-- The loop of `GetUpToNTransactions`, with `count` transactions chosen so far, over the transactions as the
-- map is visited.
unfoldable pub choose : Primitives → UtxoSet → ℤ → ℕ → List Transaction → List Transaction
choose p u n count [] = []
choose p u n count (tx ∷ order) =
    let taken = tx ∷ choose p u n (suc count) order in
    let skipped = choose p u n count order in
    if leb_ℤ n (pos count) then [] else if check_transaction p u tx then taken else skipped

unfoldable pub get_up_to_n_transactions :
    Primitives → ℤ → UtxoSet → List Transaction → List Transaction
unfolding choose
get_up_to_n_transactions p n u order = choose p u n 0 order

unfoldable pub add_transaction : TransactionPool → Transaction → Result (Unit {0}) × TransactionPool
add_transaction tp tx =
    if contains tx.hash tp.transactions
    then (err transaction_exists, tp)
    else (ok tt, record { transactions = insert tx.hash tx tp.transactions })

unfoldable pub remove_transaction :
    TransactionPool → Transaction → Result (Unit {0}) × TransactionPool
remove_transaction tp tx =
    if contains tx.hash tp.transactions
    then (ok tt, record { transactions = erase tx.hash tp.transactions })
    else (err transaction_not_found, tp)

unfoldable pub has_transaction : TransactionPool → Str → Bool
has_transaction tp hash = contains hash tp.transactions

unfoldable pub get : TransactionPool → Str → Result Transaction
get tp hash = elim (lookup hash tp.transactions) [
  | none ↦ err transaction_not_found
  | some tx ↦ ok tx
]

unfoldable pub list : TransactionPool → List Transaction → Result (List Transaction)
list tp order = elim tp.transactions [ [] ↦ err pool_empty | _ ∷ _ ↦ ok order ]

unfoldable pub readd : TransactionPool → List Transaction → TransactionPool
readd tp [] = tp
readd tp (tx ∷ txs) =
    readd (if has_transaction tp tx.hash then tp else (add_transaction tp tx).1) txs

unfoldable pub handle_stale_blocks : TransactionPool → List Block → TransactionPool
handle_stale_blocks tp [] = tp
handle_stale_blocks tp (b ∷ bs) = handle_stale_blocks (readd tp b.content.transactions) bs
