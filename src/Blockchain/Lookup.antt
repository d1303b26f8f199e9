-- ===== src/Blockchain/Lookup.antt =====
-- The search for a block by its hash.
use nakamato_blockchain.Base.{◌≡◌, ◌≢◌, ap, none, some, List, [], ◌∷◌, ◌++◌, arith, get_last?}
use nakamato_blockchain.Base.Text.{Str}
use nakamato_blockchain.Types.{Block}
use nakamato_blockchain.Blockchain.{find_block}

pub find_block-append :
    (bs : List Block) (b : Block)
    → find_block b.hash bs ≡ none
    → find_block b.hash (bs ++ b ∷ []) ≡ some b
unfolding find_block
find_block-append [] b h = ground arith
find_block-append (a ∷ bs) b h =
    let rest : find_block b.hash bs ≡ none = ground (arith, h) in
    let found = find_block-append bs b rest in ground (arith, h, found)

-- A hash that no block has is not the last one's.
pub find_block-last :
    (bs : List Block) (a : Block) (hash : Str)
    → find_block hash bs ≡ none
    → get_last? bs ≡ some a
    → a.hash ≢ hash
unfolding find_block
find_block-last [] a hash h l e = absurd (ground (arith, l))
find_block-last (c ∷ []) a hash h l e =
    let same : c ≡ a = cc l in ground (arith, h, e, ap (λ (d : Block). d.hash) same)
find_block-last (c ∷ d ∷ bs) a hash h l e = find_block-last (d ∷ bs) a hash (ground (arith, h)) l e
