-- ===== src/Fork/Limits.antt =====
-- What `HandleFork` keeps, and when it can switch.
use nakamato_blockchain.Base.{
  suc, ◌-◌, ◌≤◌, ◌≡◌, refl, sym, ap, subst, ◌⊎◌, true, some, inl, inr, Option, List, [], ◌∷◌, ◌++◌,
  arith, length, length-drop, drop, get_last?, ◌∙◌, ltb, if◌then◌else◌,
}
use nakamato_blockchain.Base.Text.{Str}
use nakamato_blockchain.Types.{Block, err, replace_failed}
use nakamato_blockchain.Crypto.{Primitives}
use nakamato_blockchain.Block
use nakamato_blockchain.Block.Validity.{verified-IsValid}
use nakamato_blockchain.Blockchain.{Blockchain, get_last_100_hashes, hashes_of}
use nakamato_blockchain.Fork.{handle_fork}
use nakamato_blockchain.Fork.Switch.{unchanged, switched, lost, Follows, handle_fork_cases}

-- A chain with at least one block, in which every later block is valid and names the hash of the one
-- before it.
pub record IsLinked (p : Primitives) (blocks : List Block) : Type 0 where
  pub first : Block
  pub later : List Block
  pub shape : blocks ≡ first ∷ later
  pub follows : Follows p first.hash later

abbrev last_hash : Str → List Block → Str
last_hash hash [] = hash
last_hash hash (b ∷ bs) = last_hash b.hash bs

Follows-append :
    (p : Primitives) (hash : Str) (xs ys : List Block)
    → Follows p hash xs
    → Follows p (last_hash hash xs) ys
    → Follows p hash (xs ++ ys)
Follows-append p hash [] ys f g = g
Follows-append p hash (x ∷ xs) ys f g = (f.0, f.1, Follows-append p x.hash xs ys f.2 g)

Follows-take :
    (p : Primitives) (hash : Str) (xs ys : List Block)
    → Follows p hash (xs ++ ys)
    → Follows p hash xs
Follows-take p hash [] ys f = tt
Follows-take p hash (x ∷ xs) ys f = (f.0, f.1, Follows-take p x.hash xs ys f.2)

last_hash-append :
    (hash : Str) (xs : List Block) (y : Block) → last_hash hash (xs ++ y ∷ []) ≡ y.hash
last_hash-append hash [] y = refl
last_hash-append hash (x ∷ xs) y = last_hash-append x.hash xs y

last_hash-get_last :
    (first : Block) (later : List Block) (last : Block)
    → get_last? (first ∷ later) ≡ some last
    → last.hash ≡ last_hash first.hash later
last_hash-get_last first [] last e = cc
last_hash-get_last first (b ∷ bs) last e = last_hash-get_last b bs last e

IsLinked-switch :
    (p : Primitives) (front : List Block) (last : Block) (cut fork : List Block)
    → IsLinked p ((front ++ last ∷ []) ++ cut)
    → Follows p last.hash fork
    → IsLinked p ((front ++ last ∷ []) ++ fork)
IsLinked-switch p [] last cut fork l f = record {
  first = last;
  later = fork;
  shape = refl;
  follows = f;
}
IsLinked-switch p (x ∷ front) last cut fork l f =
    let rest : l.later ≡ (front ++ last ∷ []) ++ cut = cc l.shape in
    let same : l.first ≡ x = cc l.shape in
    let old : Follows p x.hash ((front ++ last ∷ []) ++ cut) =
      subst (λ (b : Block). Follows p b.hash ((front ++ last ∷ []) ++ cut)) same
        (subst (Follows p l.first.hash) rest l.follows) in
    record {
      first = x;
      later = (front ++ last ∷ []) ++ fork;
      shape = refl;
      follows =
          Follows-append p x.hash (front ++ last ∷ []) fork
            (Follows-take p x.hash (front ++ last ∷ []) cut old)
            (subst (λ h. Follows p h fork) (sym (last_hash-append x.hash front last)) f);
    }

pub IsLinked-append :
    (p : Primitives) (blocks : List Block) (last b : Block)
    → IsLinked p blocks
    → get_last? blocks ≡ some last
    → b.header.previous_hash ≡ last.hash
    → Block.verify p b ≡ true
    → IsLinked p (blocks ++ b ∷ [])
IsLinked-append p blocks last b l e linked v = record {
  first = l.first;
  later = l.later ++ b ∷ [];
  shape = ap (λ bs. bs ++ b ∷ []) l.shape;
  follows = Follows-append p l.first.hash l.later (b ∷ []) l.follows (
    linked ∙ last_hash-get_last l.first l.later last (ap get_last? (sym l.shape) ∙ e),
    verified-IsValid p b v,
    tt,
  );
}

-- `HandleFork` never touches the UTXO set, also when it replaces blocks.
pub handle_fork-utxo_set :
    (p : Primitives) (bc : Blockchain) (incoming : List Str) (request : Str → Option Block)
    → (handle_fork p bc incoming request).1.utxo_set ≡ bc.utxo_set
handle_fork-utxo_set p bc incoming request = elim (handle_fork_cases p bc incoming request) [
  | unchanged e ↦ ap (λ (c : Blockchain). c.utxo_set) e
  | switched front last cut fork e shape _ f _ ↦ ap (λ r. r.1.utxo_set) e
  | lost b e _ _ ↦ ap (λ r. r.1.utxo_set) e
]

-- After `HandleFork` a linked chain is still linked, or no block is left and the call has failed.
pub handle_fork-IsLinked :
    (p : Primitives) (bc : Blockchain) (incoming : List Str) (request : Str → Option Block)
    → IsLinked p bc.blocks
    → IsLinked p (handle_fork p bc incoming request).1.blocks
      ⊎ (((handle_fork p bc incoming request).0 ≡ err replace_failed)
          × ((handle_fork p bc incoming request).1.blocks ≡ []))
handle_fork-IsLinked p bc incoming request l = elim (handle_fork_cases p bc incoming request) [
  | unchanged e ↦ inl (subst (λ (c : Blockchain). IsLinked p c.blocks) (sym e) l)
  | switched front last cut fork e shape _ f _ ↦ inl (
      subst (λ r. IsLinked p r.1.blocks) (sym e)
        (IsLinked-switch p front last cut fork (subst (IsLinked p) shape l) f))
  | lost b e _ _ ↦ inr (ap (λ r. r.0) e, ap (λ r. r.1.blocks) e)
]

length-map : (bs : List Block) → length (hashes_of bs) ≡ length bs
length-map [] = refl
length-map (b ∷ bs) = ap suc (length-map bs)

-- `GetLast100Hashes` returns the hashes of the last 100 blocks, or of all if there are fewer.
pub length-get_last_100_hashes :
    (bc : Blockchain)
    → length (get_last_100_hashes bc)
      ≡ (if ltb 100 (length bc.blocks) then 100 else length bc.blocks)
unfolding get_last_100_hashes
length-get_last_100_hashes bc =
    let n = if ltb 100 (length bc.blocks) then length bc.blocks - 100 else 0 in
    length-map (drop n bc.blocks) ∙ length-drop n bc.blocks ∙ ground arith

-- `HandleFork` never changes a chain of 100 blocks or more when at most 100 hashes come in: both
-- works are counted by the hashes, and 100 is not more than 100.
pub handle_fork-unchanged :
    (p : Primitives) (bc : Blockchain) (incoming : List Str) (request : Str → Option Block)
    → 100 ≤ length bc.blocks
    → length incoming ≤ 100
    → (handle_fork p bc incoming request).1 ≡ bc
handle_fork-unchanged p bc incoming request long few =
    elim (handle_fork_cases p bc incoming request) [
      | unchanged e ↦ e
      | switched _ _ _ _ _ _ _ _ more ↦ absurd (ground (arith, length-get_last_100_hashes bc, more))
      | lost _ _ _ more ↦ absurd (ground (arith, length-get_last_100_hashes bc, more))
    ]
