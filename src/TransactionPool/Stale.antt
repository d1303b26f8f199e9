-- ===== src/TransactionPool/Stale.antt =====
-- The pool as a map, and the return of transactions from stale blocks.
use nakamato_blockchain.Base.{◌≡◌, ◌||◌, List, [], ◌∷◌, arith, if◌then◌else◌, ◌∙◌}
use nakamato_blockchain.Base.Text.{Str, str_eq}
use nakamato_blockchain.Base.Dict.{lookup-insert, lookup-erase}
use nakamato_blockchain.Types.{Transaction, Block, ok, err, transaction_not_found}
use nakamato_blockchain.Blockchain.{any_hash, any_block}
use nakamato_blockchain.TransactionPool.{
  TransactionPool, add_transaction, remove_transaction, has_transaction, get, readd,
  handle_stale_blocks,
}

-- `TransactionPool.AddTransaction` seen through `Get`: a new hash then finds the transaction and
-- every other hash what it found before; a known hash changes nothing.
pub get-add_transaction :
    (tp : TransactionPool) (tx : Transaction) (hash : Str)
    → get (add_transaction tp tx).1 hash ≡ (
        if has_transaction tp tx.hash
        then get tp hash
        else if str_eq hash tx.hash
        then ok tx
        else get tp hash)
unfolding get add_transaction has_transaction
get-add_transaction tp tx hash = ground (arith, lookup-insert tx.hash hash tx tp.transactions)

pub get-remove_transaction :
    (tp : TransactionPool) (tx : Transaction) (hash : Str)
    → get (remove_transaction tp tx).1 hash
      ≡ (if str_eq hash tx.hash then err transaction_not_found else get tp hash)
unfolding get remove_transaction
get-remove_transaction tp tx hash = ground (arith, lookup-erase tx.hash hash tp.transactions)

-- The pool after one transaction of a stale block.
abbrev readd_one : TransactionPool → Transaction → TransactionPool
readd_one tp tx = if has_transaction tp tx.hash then tp else (add_transaction tp tx).1

has_transaction-readd_one :
    (tp : TransactionPool) (tx : Transaction) (hash : Str)
    → has_transaction (readd_one tp tx) hash ≡ (has_transaction tp hash || str_eq tx.hash hash)
unfolding has_transaction add_transaction
has_transaction-readd_one tp tx hash = ground (arith, lookup-insert tx.hash hash tx tp.transactions)

get-readd_one :
    (tp : TransactionPool) (tx : Transaction) (hash : Str) (t : Transaction)
    → get tp hash ≡ ok t
    → get (readd_one tp tx) hash ≡ ok t
unfolding has_transaction add_transaction get
get-readd_one tp tx hash t h = ground (arith, lookup-insert tx.hash hash tx tp.transactions)

has_transaction-readd :
    (tp : TransactionPool) (txs : List Transaction) (hash : Str)
    → has_transaction (readd tp txs) hash ≡ (has_transaction tp hash || any_hash hash txs)
unfolding readd any_hash
has_transaction-readd tp [] hash = ground arith
has_transaction-readd tp (tx ∷ txs) hash =
    has_transaction-readd (readd_one tp tx) txs hash
    ∙ ground (arith, has_transaction-readd_one tp tx hash)

get-readd :
    (tp : TransactionPool) (txs : List Transaction) (hash : Str) (t : Transaction)
    → get tp hash ≡ ok t
    → get (readd tp txs) hash ≡ ok t
unfolding readd
get-readd tp [] hash t h = h
get-readd tp (tx ∷ txs) hash t h =
    get-readd (readd_one tp tx) txs hash t (get-readd_one tp tx hash t h)

-- After `HandleStaleBlocks` the pool has exactly the hashes that it had and those of the
-- transactions in the blocks.
pub has_transaction-stale :
    (tp : TransactionPool) (bs : List Block) (hash : Str)
    → has_transaction (handle_stale_blocks tp bs) hash
      ≡ (has_transaction tp hash || any_block hash bs)
unfolding handle_stale_blocks any_block
has_transaction-stale tp [] hash = ground arith
has_transaction-stale tp (b ∷ bs) hash =
    has_transaction-stale (readd tp b.content.transactions) bs hash
    ∙ ground (arith, has_transaction-readd tp b.content.transactions hash)

-- A transaction that the pool returns for a hash is still returned for it after
-- `HandleStaleBlocks`.
pub get-stale :
    (tp : TransactionPool) (bs : List Block) (hash : Str) (t : Transaction)
    → get tp hash ≡ ok t
    → get (handle_stale_blocks tp bs) hash ≡ ok t
unfolding handle_stale_blocks
get-stale tp [] hash t h = h
get-stale tp (b ∷ bs) hash t h =
    get-stale (readd tp b.content.transactions) bs hash t
      (get-readd tp b.content.transactions hash t h)
