-- ===== src/Fork/Heights.antt =====
-- The map from hashes to heights of `FindCommonAncestor`: where a hash stands in the chain.
use nakamato_blockchain.Base.{
  ℕ, zero, suc, ◌+◌, ◌≤◌, ◌≡◌, ◌≢◌, refl, sym, ap, some, Option, List, [], ◌∷◌, arith, get_elem?,
  ◌∙◌, if◌then◌else◌,
}
use nakamato_blockchain.Base.Text.{Str, Str-discrete, str_eq}
use nakamato_blockchain.Base.Dict.{Dict, lookup, insert, lookup-insert}
use nakamato_blockchain.Types.{Block}
use nakamato_blockchain.Fork.{hash_to_height}

-- The index of the last block with a hash, counted from i; or what was known before.
unfoldable pub last_index : ℕ → List Block → Str → Option ℕ → Option ℕ
last_index i [] hash known = known
last_index i (b ∷ bs) hash known =
    last_index (suc i) bs hash (if str_eq hash b.hash then some i else known)

pub lookup-hash_to_height :
    (i : ℕ) (bs : List Block) (d : Dict ℕ) (hash : Str)
    → lookup hash (hash_to_height i bs d) ≡ last_index i bs hash (lookup hash d)
unfolding hash_to_height last_index
lookup-hash_to_height i [] d hash = refl
lookup-hash_to_height i (b ∷ bs) d hash =
    lookup-hash_to_height (suc i) bs (insert b.hash i d) hash
    ∙ ap (last_index (suc i) bs hash) (lookup-insert b.hash hash i d)

-- Where a hash stands in the blocks from index i on, if it does.
pub data Last (i : ℕ) (bs : List Block) (hash : Str) (known r : Option ℕ) : Type 0 where
  stands :
      (k : ℕ) (b : Block)
      → r ≡ some (i + k)
      → get_elem? bs k ≡ some b
      → b.hash ≡ hash
      → ((j : ℕ) (c : Block) → get_elem? bs j ≡ some c → c.hash ≡ hash → j ≤ k)
      → Last i bs hash known r
  lacks :
      r ≡ known
      → ((j : ℕ) (c : Block) → get_elem? bs j ≡ some c → c.hash ≢ hash)
      → Last i bs hash known r

pub last_index-Last :
    (i : ℕ) (bs : List Block) (hash : Str) (known : Option ℕ)
    → Last i bs hash known (last_index i bs hash known)
unfolding last_index
last_index-Last i [] hash known = lacks refl (λ j c e. cc)
last_index-Last i (b ∷ bs) hash known =
    elim (last_index-Last (suc i) bs hash (if str_eq hash b.hash then some i else known)) [
      | stands k c r e h top ↦ stands (suc k) c (r ∙ ap some (omega arith)) e h (later k top)
      | lacks r none_later ↦ elim (Str-discrete hash b.hash) [
        | yes same ↦ stands 0 b (r ∙ ground arith) refl (sym same) (only none_later)
        | no other ↦ lacks (r ∙ ground arith) (none_here other none_later)
      ]
    ]
  where
    later :
        (k : ℕ)
        → ((j : ℕ) (c : Block) → get_elem? bs j ≡ some c → c.hash ≡ hash → j ≤ k)
        → (j : ℕ) (c : Block) → get_elem? (b ∷ bs) j ≡ some c
        → c.hash ≡ hash
        → j ≤ suc k
    later k top zero c e h = omega arith
    later k top (suc j) c e h = omega (arith, top j c e h)

    only :
        ((j : ℕ) (c : Block) → get_elem? bs j ≡ some c → c.hash ≢ hash)
        → (j : ℕ) (c : Block) → get_elem? (b ∷ bs) j ≡ some c
        → c.hash ≡ hash
        → j ≤ 0
    only n zero c e h = omega arith
    only n (suc j) c e h = absurd (n j c e h)

    none_here :
        hash ≢ b.hash
        → ((j : ℕ) (c : Block) → get_elem? bs j ≡ some c → c.hash ≢ hash)
        → (j : ℕ) (c : Block) → get_elem? (b ∷ bs) j ≡ some c
        → c.hash ≢ hash
    none_here other n zero c e h = ground arith
    none_here other n (suc j) c e h = n j c e h
