-- ===== src/Fork/Ancestor.antt =====
-- `FindCommonAncestor` returns the highest block that both chains have.
use nakamato_blockchain.Base.{
  ℕ, ◌+◌, ◌≤◌, ◌≡◌, ◌≢◌, refl, sym, ap, subst, none, some, inl, inr, ◌⊎◌, Option, List, [], ◌∷◌,
  ◌++◌, arith, get_elem?, ◌∙◌, ltb, if◌then◌else◌, All, dec_lt,
}
use nakamato_blockchain.Base.Text.{Str}
use nakamato_blockchain.Base.Dict.{Dict, lookup}
use nakamato_blockchain.Types.{Block}
use nakamato_blockchain.Blockchain.{Blockchain}
use nakamato_blockchain.Fork.Heights.{
  last_index, Last, stands, lacks, lookup-hash_to_height, last_index-Last,
}
use nakamato_blockchain.Fork.{hash_to_height, higher, best_height, block_of, find_common_ancestor}

-- Every height in an option is at most h.
abbrev AtMost : ℕ → Option ℕ → Type 0
AtMost h o = (k : ℕ) → o ≡ some k → k ≤ h

higher-none : (l best : Option ℕ) → higher l best ≡ none → (l ≡ none) × (best ≡ none)
higher-none none best e = (refl, e)
higher-none (some a) none e = cc
higher-none (some a) (some b) e = ground arith

higher-some :
    (l best : Option ℕ) (h : ℕ)
    → higher l best ≡ some h
    → ((best ≡ some h) × AtMost h l) ⊎ ((l ≡ some h) × AtMost h best)
higher-some none best h e = inl (e, λ k f. cc)
higher-some (some a) none h e = inr (e, λ k f. cc)
higher-some (some a) (some b) h e = elim (dec_lt b a) [
  | yes above ↦ inr (ground arith, λ k f. ground arith)
  | no below ↦ inl (ground arith, λ k f. ground arith)
]

AtMost-higher : (l best : Option ℕ) (h : ℕ) → AtMost h (higher l best) → AtMost h l × AtMost h best
AtMost-higher none best h low = (λ k f. cc, low)
AtMost-higher (some a) none h low = (low, λ k f. cc)
AtMost-higher (some a) (some b) h low =
    let top = low (if ltb b a then a else b) (ground arith) in
    (λ k f. ground (arith, top, f), λ k f. ground (arith, top, f))

-- The highest of the heights that some hashes have in a map.
data Best (d : Dict ℕ) (best : Option ℕ) (hashes : List Str) (r : Option ℕ) : Type 0 where
  nothing : r ≡ none → best ≡ none → All (λ x. lookup x d ≡ none) hashes → Best d best hashes r
  kept :
      (h : ℕ)
      → r ≡ some h
      → best ≡ some h
      → All (λ x. AtMost h (lookup x d)) hashes
      → Best d best hashes r
  reached :
      (h : ℕ) (before : List Str) (hash : Str) (after : List Str)
      → r ≡ some h
      → hashes ≡ before ++ hash ∷ after
      → lookup hash d ≡ some h
      → AtMost h best
      → All (λ x. AtMost h (lookup x d)) hashes
      → Best d best hashes r

-- The step from the best height after the first hash to the best height of all.
Best-cons :
    (d : Dict ℕ) (best : Option ℕ) (hash : Str) (hashes : List Str) (r : Option ℕ)
    → Best d (higher (lookup hash d) best) hashes r
    → Best d best (hash ∷ hashes) r
Best-cons d best hash hashes r (nothing e f a) =
    let (here, rest) = higher-none (lookup hash d) best f in nothing e rest (here, a)
Best-cons d best hash hashes r (kept h e f a) = elim (higher-some (lookup hash d) best h f) [
  | inl (same, low) ↦ kept h e same (low, a)
  | inr (here, low) ↦
      reached h [] hash hashes e refl here low
        (λ k g. let same : some h ≡ some k = sym here ∙ g in ground arith, a)
]
Best-cons d best hash hashes r (reached h before x after e f g low a) =
    let (here, rest) = AtMost-higher (lookup hash d) best h low in
    reached h (hash ∷ before) x after e (ap (◌∷◌ hash) f) g rest (here, a)

best_height-Best :
    (d : Dict ℕ) (best : Option ℕ) (hashes : List Str)
    → Best d best hashes (best_height d best hashes)
unfolding best_height
best_height-Best d none [] = nothing refl refl tt
best_height-Best d (some h) [] = kept h refl refl tt
best_height-Best d best (hash ∷ hashes) =
    Best-cons d best hash hashes _ (best_height-Best d (higher (lookup hash d) best) hashes)

module _ (bc : Blockchain) where
  heights : Dict ℕ
  heights = hash_to_height 0 bc.blocks []

  lookup-heights : (hash : Str) → Last 0 bc.blocks hash none (lookup hash heights)
  unfolding heights lookup
  lookup-heights hash =
      subst (Last 0 bc.blocks hash none)
        (sym (lookup-hash_to_height 0 bc.blocks [] hash ∙ ap (last_index 0 bc.blocks hash) refl))
        (last_index-Last 0 bc.blocks hash none)

  -- No block above index h has the hash.
  abbrev pub NoneAbove : ℕ → Str → Type 0
  NoneAbove h hash = (j : ℕ) (c : Block) → get_elem? bc.blocks j ≡ some c → c.hash ≡ hash → j ≤ h

  abbrev pub NoneAtAll : Str → Type 0
  NoneAtAll hash = (j : ℕ) (c : Block) → get_elem? bc.blocks j ≡ some c → c.hash ≢ hash

  AtMost-NoneAbove : (h : ℕ) (hash : Str) → AtMost h (lookup hash heights) → NoneAbove h hash
  AtMost-NoneAbove h hash low j c e same = elim (lookup-heights hash) [
    | stands k b r f g top ↦ omega (arith, low (0 + k) r, top j c e same)
    | lacks r n ↦ absurd (n j c e same)
  ]

  none-NoneAtAll : (hash : Str) → lookup hash heights ≡ none → NoneAtAll hash
  none-NoneAtAll hash miss j c e same = elim (lookup-heights hash) [
    | stands k b r f g top ↦ cc (r, miss)
    | lacks r n ↦ n j c e same
  ]

  All-AtMost :
      (h : ℕ) (xs : List Str) → All (λ x. AtMost h (lookup x heights)) xs → All (NoneAbove h) xs
  All-AtMost h [] a = tt
  All-AtMost h (x ∷ xs) a = (AtMost-NoneAbove h x a.0, All-AtMost h xs a.1)

  All-none : (xs : List Str) → All (λ x. lookup x heights ≡ none) xs → All NoneAtAll xs
  All-none [] a = tt
  All-none (x ∷ xs) a = (none-NoneAtAll x a.0, All-none xs a.1)

  -- What `FindCommonAncestor` may return.
  pub data Ancestor (incoming : List Str) (r : Option Block) : Type 0 where
    common :
        (h : ℕ) (b : Block) (before after : List Str)
        → r ≡ some b
        → get_elem? bc.blocks h ≡ some b
        → incoming ≡ before ++ b.hash ∷ after
        → All (NoneAbove h) incoming
        → Ancestor incoming r
    disjoint : r ≡ none → All NoneAtAll incoming → Ancestor incoming r

  -- `FindCommonAncestor` returns a block of the chain whose hash is among the incoming ones, and no
  -- block above it has an incoming hash; or nil, and then no block of the chain has one.
  pub find_common_ancestor_cases :
      (incoming : List Str) → Ancestor incoming (find_common_ancestor bc incoming)
  unfolding find_common_ancestor heights
  find_common_ancestor_cases incoming = elim (best_height-Best heights none incoming) [
    | nothing e f a ↦ disjoint (rw e) (All-none incoming a)
    | kept h e f a ↦ absurd (cc f)
    | reached h before hash after e f g low a ↦ elim (lookup-heights hash) [
      | stands k b r s same top ↦
          let height : h ≡ k = ground (arith, r, g) in
          let at : get_elem? bc.blocks h ≡ some b = rw height s in
          common h b before after (ap (block_of bc.blocks) e ∙ at) at
            (f ∙ ap (λ x. before ++ x ∷ after) (sym same)) (All-AtMost h incoming a)
      | lacks r n ↦ absurd (cc (r, g))
    ]
  ]
