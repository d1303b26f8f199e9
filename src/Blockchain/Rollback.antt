-- ===== src/Blockchain/Rollback.antt =====
-- `RollbackToHash`: what is kept, what is removed, and what is left when the hash is not found.
use mathlib.Core.List.{
  reverse, reverse-append, reverse-reverse, reverse-cons, append-nil, append_assoc,
}
use nakamato_blockchain.Base.{
  ◌≡◌, ◌≢◌, refl, sym, ap, subst, List, [], ◌∷◌, ◌++◌, arith, All, All-reverse, All-middle, ◌∙◌,
}
use nakamato_blockchain.Base.Text.{Str, Str-discrete}
use nakamato_blockchain.Types.{Block, ok, err, ancestor_not_found}
use nakamato_blockchain.Blockchain.{Blockchain, rollback_from, rollback_to_hash}

abbrev pub HasOtherHash : Str → Block → Type 0
HasOtherHash h b = b.hash ≢ h

-- The blocks newest first, split at the newest one with the hash.
data Split (to : Str) (rs removed : List Block) (r : List Block × List Block) : Type 0 where
  found :
      (cut : List Block) (b : Block) (left : List Block)
      → rs ≡ cut ++ b ∷ left
      → b.hash ≡ to
      → All (HasOtherHash to) cut
      → r ≡ (b ∷ left, removed ++ cut)
      → Split to rs removed r
  missed : All (HasOtherHash to) rs → r ≡ ([], removed ++ rs) → Split to rs removed r

rollback_from-Split :
    (to : Str) (rs removed : List Block) → Split to rs removed (rollback_from to rs removed)
unfolding rollback_from
rollback_from-Split to [] removed = missed tt (rw append-nil)
rollback_from-Split to (b ∷ bs) removed = elim (Str-discrete b.hash to) [
  | yes same ↦ found [] b bs refl same tt (ground (arith, append-nil removed))
  | no other ↦ elim (rollback_from-Split to bs (removed ++ b ∷ [])) [
    | found cut c left e h o r ↦
        found (b ∷ cut) c left (ap (◌∷◌ b) e) h (other, o)
          (ground (arith, append_assoc removed (b ∷ []) cut))
    | missed o r ↦ missed (other, o) (ground (arith, append_assoc removed (b ∷ []) bs))
  ]
]

split-reverse :
    (xs cut : List Block) (b : Block) (left : List Block)
    → reverse xs ≡ cut ++ b ∷ left
    → xs ≡ (reverse left ++ b ∷ []) ++ reverse cut
split-reverse xs cut b left e =
    sym (reverse-reverse xs)
    ∙ ap reverse e
    ∙ reverse-append cut (b ∷ left)
    ∙ ap (λ l. l ++ reverse cut) (reverse-cons b left)

-- What `RollbackToHash` returns and leaves.
pub data RolledBack (bc : Blockchain) (to : Str) : Type 0 where
  kept :
      (front : List Block) (last : Block) (removed : List Block)
      → rollback_to_hash bc to ≡ (ok removed, record bc { blocks = front ++ last ∷ [] })
      → bc.blocks ≡ (front ++ last ∷ []) ++ reverse removed
      → last.hash ≡ to
      → All (HasOtherHash to) removed
      → RolledBack bc to
  emptied :
      rollback_to_hash bc to ≡ (err ancestor_not_found, record bc { blocks = [] })
      → All (HasOtherHash to) bc.blocks
      → RolledBack bc to

-- `RollbackToHash` cuts the chain behind the newest block with the hash and returns what it cut,
-- newest first; where no block has the hash it fails and leaves no block.
pub rollback_to_hash_cases : (bc : Blockchain) (to : Str) → RolledBack bc to
unfolding rollback_to_hash
rollback_to_hash_cases bc to = elim (rollback_from-Split to (reverse bc.blocks) []) [
  | found cut b left e h o r ↦
      kept (reverse left) b cut
        (rw r (ap (λ l. (ok cut, record bc { blocks = l })) (reverse-cons b left)))
        (split-reverse bc.blocks cut b left e) h o
  | missed o r ↦ emptied (rw r) (
      subst (All (HasOtherHash to)) (reverse-reverse bc.blocks)
        (All-reverse (HasOtherHash to) (reverse bc.blocks) o))
]

pub rollback_to_hash-emptied :
    (bc : Blockchain) (to : Str)
    → All (HasOtherHash to) bc.blocks
    → rollback_to_hash bc to ≡ (err ancestor_not_found, record bc { blocks = [] })
rollback_to_hash-emptied bc to others = elim (rollback_to_hash_cases bc to) [
  | kept front last removed r e same o ↦
      let shape : bc.blocks ≡ front ++ last ∷ reverse removed =
        e ∙ append_assoc front (last ∷ []) (reverse removed) in
      absurd (
        All-middle (HasOtherHash to) front last (reverse removed)
          (subst (All (HasOtherHash to)) shape others) same)
  | emptied r o ↦ r
]
