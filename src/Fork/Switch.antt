-- ===== src/Fork/Switch.antt =====
-- `HandleFork`: the chain stays, is cut and continued, or is lost.
use mathlib.Core.List.{reverse}
use nakamato_blockchain.Base.{
  ℕ, suc, ◌<◌, ◌≡◌, ◌≢◌, refl, sym, ap, subst, true, none, some, inl, inr, Option, List, [], ◌∷◌,
  ◌++◌, arith, length, get_last?, ◌∙◌, Option-cases, ltb, if◌then◌else◌, All, dec_lt,
}
use nakamato_blockchain.Base.Text.{Str}
use nakamato_blockchain.Types.{
  Block, replace_failed, common_ancestor_not_found, Result, returned, failed, panicked, outcome, ok,
  err,
}
use nakamato_blockchain.Crypto.{Primitives}
use nakamato_blockchain.Block
use nakamato_blockchain.Block.Validity.{IsValid, verified-IsValid}
use nakamato_blockchain.Blockchain.{
  Blockchain, validate_from, validate_blocks, get_last_100_hashes, hash_or_empty,
}
use nakamato_blockchain.Blockchain.Rollback.{HasOtherHash, kept, emptied, rollback_to_hash_cases}
use nakamato_blockchain.Fork.{
  find_common_ancestor, compute_work, request_missing_blocks, replace_with_fork, all_some, replaced,
  replace_validated, handle_fork,
}

-- Valid blocks that follow one another, the first after a block with the given hash.
abbrev pub Follows : Primitives → Str → List Block → Type 0
Follows p hash [] = Unit
Follows p hash (b ∷ bs) = (b.header.previous_hash ≡ hash) × IsValid p b × Follows p b.hash bs

validate_from-some :
    (p : Primitives) (i : ℕ) (hash : Str) (b : Block) (os : List (Option Block))
    → validate_from p i hash (some b ∷ os) ≡ ok tt
    → (Block.verify p b ≡ true)
      × (0 < i → b.header.previous_hash ≡ hash)
      × (validate_from p (suc i) b.hash os ≡ ok tt)
unfolding validate_from
validate_from-some p i hash b os h = (ground arith, λ later. ground arith, ground arith)

all_some-cons :
    (b : Block) (os : List (Option Block)) (bs : List Block)
    → all_some os ≡ some bs
    → all_some (some b ∷ os) ≡ some (b ∷ bs)
unfolding all_some
all_some-cons b os bs h = rw (h, all_some)

validate_from-Follows :
    (p : Primitives) (i : ℕ) (hash : Str) (os : List (Option Block))
    → validate_from p (suc i) hash os ≡ ok tt
    → (bs : List Block) × (all_some os ≡ some bs) × Follows p hash bs
validate_from-Follows p i hash [] h = ([], unfold all_some in refl, tt)
validate_from-Follows p i hash (none ∷ os) h = absurd (unfold validate_from in cc)
validate_from-Follows p i hash (some b ∷ os) h =
    let (v, link, rest) = validate_from-some p (suc i) hash b os h in
    let (bs, e, f) = validate_from-Follows p (suc i) b.hash os rest in
    (b ∷ bs, all_some-cons b os bs e, (link (omega arith), verified-IsValid p b v, f))

-- `ValidateBlocks` does not look at the parent of the first block.
validate_blocks-Follows :
    (p : Primitives) (bc : Blockchain) (o : Option Block) (os : List (Option Block))
    → validate_blocks p bc (o ∷ os) ≡ ok tt
    → (b : Block) × (bs : List Block) × (all_some (o ∷ os) ≡ some (b ∷ bs))
      × Follows p b.header.previous_hash (b ∷ bs)
unfolding validate_blocks
validate_blocks-Follows p bc none os h = absurd (cc h)
validate_blocks-Follows p bc (some b) os h =
    let (v, _, rest) = validate_from-some p 0 (hash_or_empty (get_last? bc.blocks)) b os h in
    let (bs, e, f) = validate_from-Follows p 0 b.hash os rest in
    (b, bs, all_some-cons b os bs e, (refl, verified-IsValid p b v, f))

-- What `HandleFork` may return and leave.
pub data Switch (p : Primitives) (bc : Blockchain) (incoming : List Str)
    (r : Result (Unit {0}) × Blockchain) : Type 0 where
  unchanged : r.1 ≡ bc → Switch p bc incoming r
  switched :
      (front : List Block) (last : Block) (cut fork : List Block)
      → r ≡ (ok tt, record bc { blocks = (front ++ last ∷ []) ++ fork })
      → bc.blocks ≡ (front ++ last ∷ []) ++ cut
      → fork ≢ []
      → Follows p last.hash fork
      → length (get_last_100_hashes bc) < length incoming
      → Switch p bc incoming r
  lost :
      (b : Block)
      → r ≡ (err replace_failed, record bc { blocks = [] })
      → All (HasOtherHash b.header.previous_hash) bc.blocks
      → length (get_last_100_hashes bc) < length incoming
      → Switch p bc incoming r

module _ (p : Primitives) (bc : Blockchain) (incoming : List Str)
    (more : length (get_last_100_hashes bc) < length incoming) where
  replace-Switch :
      (b : Block) (bs : List Block)
      → Follows p b.header.previous_hash (b ∷ bs)
      → Switch p bc incoming (replaced (replace_with_fork bc (b ∷ bs)))
  unfolding replace_with_fork
  replace-Switch b bs f = elim (rollback_to_hash_cases bc b.header.previous_hash) [
    | kept front last removed r e same others ↦
        switched front last (reverse removed) (b ∷ bs) (rw r) e (λ n. cc)
          (subst (λ h. Follows p h (b ∷ bs)) (sym same) f) more
    | emptied r others ↦ lost b (rw r) others more
  ]

  replace_validated-Switch :
      (missing : List (Option Block))
      → Switch p bc incoming
          (replace_validated bc (all_some missing) (validate_blocks p bc missing))
  replace_validated-Switch [] =
      unchanged (unfold validate_blocks validate_from all_some replace_with_fork in refl)
  replace_validated-Switch (o ∷ os) = elim (outcome (validate_blocks p bc (o ∷ os))) [
    | returned _ h ↦
        let (b, bs, e, f) = validate_blocks-Follows p bc o os h in rw (h, e) (replace-Switch b bs f)
    | failed r h ↦ unchanged (rw h)
    | panicked h ↦ unchanged (rw h)
  ]

module _ (p : Primitives) (bc : Blockchain) (incoming : List Str)
    (request : Str → Option Block) where
  handle_fork-none :
      find_common_ancestor bc incoming ≡ none
      → handle_fork p bc incoming request ≡ (err common_ancestor_not_found, bc)
  unfolding handle_fork
  handle_fork-none e = rw (e, handle_fork)

  abbrev missing_after : Block → List (Option Block)
  missing_after ancestor = request_missing_blocks incoming ancestor.hash request

  pub handle_fork-some :
      (b : Block)
      → find_common_ancestor bc incoming ≡ some b
      → handle_fork p bc incoming request ≡ (
          if ltb (length (get_last_100_hashes bc)) (length incoming)
          then replace_validated bc
              (all_some (missing_after b))
              (validate_blocks p bc (missing_after b))
          else (ok tt, bc))
  unfolding handle_fork compute_work
  handle_fork-some b e = rw (e, handle_fork)

-- `HandleFork` leaves the chain as it was; or it cuts the chain behind a block and appends a fork
-- of valid blocks, each naming the hash of the one before it; or it fails with no block left, after
-- a fork whose first block has no parent in the chain. The last two happen only when more hashes
-- came in than the node has among its last 100.
pub handle_fork_cases :
    (p : Primitives) (bc : Blockchain) (incoming : List Str) (request : Str → Option Block)
    → Switch p bc incoming (handle_fork p bc incoming request)
handle_fork_cases p bc incoming request = elim (Option-cases (find_common_ancestor bc incoming)) [
  | inl e ↦ rw (handle_fork-none p bc incoming request e) (unchanged refl)
  | inr (b, e) ↦
      let eq = handle_fork-some p bc incoming request b e in
      elim (dec_lt (length (get_last_100_hashes bc)) (length incoming)) [
        | yes more ↦
            let missing = missing_after p bc incoming request b in
            let go : handle_fork p bc incoming request
                ≡ replace_validated bc (all_some missing) (validate_blocks p bc missing) =
              eq ∙ ground arith in
            rw go (replace_validated-Switch p bc incoming more missing)
        | no fewer ↦ unchanged (ap (λ r. r.1) eq ∙ ground arith)
      ]
]
