-- ===== src/Fork/Loss.antt =====
-- How a peer makes a node lose its chain.
use mathlib.Core.List.{reverse, reverse-append, reverse-cons, append_assoc, map-append}
use nakamato_blockchain.Base.{
  ◌<◌, ◌≡◌, ◌≢◌, refl, ap, true, some, Option, List, [], ◌∷◌, ◌++◌, map, arith, length, All,
  All-reverse, ◌∙◌,
}
use nakamato_blockchain.Base.Text.{Str}
use nakamato_blockchain.Types.{Block, replace_failed, ok, err}
use nakamato_blockchain.Crypto.{Primitives}
use nakamato_blockchain.Block
use nakamato_blockchain.Blockchain.{Blockchain, validate_from, validate_blocks, get_last_100_hashes}
use nakamato_blockchain.Blockchain.Rollback.{HasOtherHash, rollback_to_hash-emptied}
use nakamato_blockchain.Fork.{
  find_common_ancestor, request_from, request_missing_blocks, all_some, replace_with_fork, replaced,
  handle_fork,
}
use nakamato_blockchain.Fork.Switch.{handle_fork-some}

abbrev pub IsOther : Str → Str → Type 0
IsOther start hash = hash ≢ start

request_from-append :
    (start : Str) (request : Str → Option Block) (xs ys : List Str)
    → All (IsOther start) xs
    → request_from start request (xs ++ start ∷ ys) ≡ map request xs
unfolding request_from
request_from-append start request [] ys h = ground arith
request_from-append start request (x ∷ xs) ys h =
    ground (arith, request_from-append start request xs ys h.1)

map-reverse :
    (request : Str → Option Block) (xs : List Str)
    → reverse (map request (reverse xs)) ≡ map request xs
map-reverse request [] = refl
map-reverse request (x ∷ xs) =
    rw (reverse-cons x xs, map-append, reverse-append)
      (ap (◌∷◌ (request x)) (map-reverse request xs))

-- The blocks requested are those of the hashes behind the last occurrence of the start hash, in their
-- order.
pub request_missing_blocks-append :
    (start : Str) (request : Str → Option Block) (before after : List Str)
    → All (IsOther start) after
    → request_missing_blocks (before ++ start ∷ after) start request ≡ map request after
unfolding request_missing_blocks
request_missing_blocks-append start request before after h =
    let e : reverse (before ++ start ∷ after) ≡ reverse after ++ start ∷ reverse before =
      reverse-append before (start ∷ after)
      ∙ ap (λ l. l ++ reverse before) (reverse-cons start after)
      ∙ append_assoc (reverse after) (start ∷ []) (reverse before) in
    ap (λ l. reverse (request_from start request l)) e
    ∙ ap reverse (
        request_from-append start request (reverse after) (reverse before)
          (All-reverse (IsOther start) after h))
    ∙ map-reverse request after

-- A peer can empty the chain of a node: it sends more hashes than the node has among its last 100,
-- ending in that of the common ancestor and one more, and answers the request for the last with a
-- valid block whose parent hash is not in the chain. `HandleFork` then fails with no block left.
pub handle_fork_loses :
    (p : Primitives) (bc : Blockchain) (before : List Str) (hash : Str)
    (request : Str → Option Block) (ancestor b : Block)
    → find_common_ancestor bc (before ++ ancestor.hash ∷ hash ∷ []) ≡ some ancestor
    → length (get_last_100_hashes bc) < length (before ++ ancestor.hash ∷ hash ∷ [])
    → hash ≢ ancestor.hash
    → request hash ≡ some b
    → Block.verify p b ≡ true
    → All (HasOtherHash b.header.previous_hash) bc.blocks
    → handle_fork p bc (before ++ ancestor.hash ∷ hash ∷ []) request
      ≡ (err replace_failed, record bc { blocks = [] })
handle_fork_loses p bc before hash request ancestor b common more other answered v orphan =
    let incoming = before ++ ancestor.hash ∷ hash ∷ [] in
    let missing : request_missing_blocks incoming ancestor.hash request ≡ some b ∷ [] =
      request_missing_blocks-append ancestor.hash request before (hash ∷ []) (other, tt)
      ∙ ap (λ o. o ∷ []) answered in
    let go = handle_fork-some p bc incoming request ancestor common in
    let valid : validate_blocks p bc (some b ∷ []) ≡ ok tt =
      unfold validate_blocks validate_from in ground (arith, v) in
    let one : all_some {A = Block} (some b ∷ []) ≡ some (b ∷ []) = unfold all_some in refl in
    let cut = rollback_to_hash-emptied bc b.header.previous_hash orphan in
    let replaces : replaced (replace_with_fork bc (b ∷ []))
        ≡ (err replace_failed, record bc { blocks = [] }) =
      unfold replace_with_fork in rw cut in
    go ∙ rw (missing, valid, one) (ground (arith, replaces))
