-- ===== src/Server/Growth.antt =====
-- What a turn of mining can do to the chain of a node.
use nakamato_blockchain.Base.{
  ◌≡◌, refl, sym, ap, subst, ◌∙◌, true, none, some, List, [], ◌∷◌, ◌++◌, arith, get_last?,
  Bool-cases, inl, inr, ◌⊎◌, ◌&&◌, Option-cases,
}
use nakamato_blockchain.Base.Int.{pos, eq_ℤ, leb_ℤ, ltb_ℤ}
use nakamato_blockchain.Base.Text.{Str}
use nakamato_blockchain.Types.{Block, Result, returned, failed, panicked, outcome, ok, err, panic}
use nakamato_blockchain.Crypto.{Primitives}
use nakamato_blockchain.Block
use nakamato_blockchain.Blockchain.{Blockchain, add_block, check_link, get_last_block}
use nakamato_blockchain.Blockchain.Growth.{add_block_ok, add_block_kept}
use nakamato_blockchain.Fork.Limits.{IsLinked, IsLinked-append}
use nakamato_blockchain.Server.{BlockchainServer, Reply}
use nakamato_blockchain.Server.Mining.{
  Turn, stop_mining, falsified, announce, announced, found, mined_block,
}
use nakamato_blockchain.Server.Search.{View, Try, search, wait_for_block}
use nakamato_blockchain.Server.Turns.{mine_turn, mine_turn_cases}

-- The chain that a turn leaves: as it was, or after an `AddBlock` of a block with the property.
pub data Mined (p : Primitives) (P : Block → Type 0) (bc : Blockchain) : Blockchain → Type 0 where
  unchanged : Mined p P bc bc
  extended : (b : Block) → P b → Mined p P bc (add_block p bc b).1

announce-blockchain :
    (s : BlockchainServer) (b : Block) → (announce s b).server.blockchain ≡ s.blockchain
unfolding announce stop_mining
announce-blockchain s b = ground arith

announced-blockchain :
    (s : BlockchainServer) (b : Block) (r : Result (Unit {0}) × Blockchain)
    → (announced s b r).server.blockchain ≡ r.1
announced-blockchain s b (ok _, bc) = announce-blockchain (record s { blockchain = bc }) b
announced-blockchain s b (err _, bc) =
    let rest = announce-blockchain (record s { blockchain = bc }) b in ground (arith, rest)
announced-blockchain s b (panic, bc) = refl

mined_block-Mined :
    (p : Primitives) (P : Block → Type 0) (s : BlockchainServer) (block : Block) (hash : Str)
    → P (found block hash)
    → P (falsified s.mode (found block hash))
    → Mined p P s.blockchain (mined_block p s block hash).server.blockchain
unfolding mined_block
mined_block-Mined p P s block hash honest lie = elim (Option-cases (get_last_block s.blockchain)) [
  | inl e ↦ rw (mined_block, e) unchanged
  | inr (last, e) ↦ elim (Bool-cases (leb_ℤ block.header.height last.header.height)) [
    | inl late ↦ rw (mined_block, e, late) unchanged
    | inr ahead ↦
        let b = found block hash in
        elim (Bool-cases (
          eq_ℤ s.mode (pos 3)
          && ltb_ℤ (pos 1) block.header.height
          && ltb_ℤ block.header.height (pos 5))) [
            | inl silent ↦ rw (mined_block, e, ahead, silent) (extended b honest)
            | inr open_ ↦
                rw (mined_block, e, ahead, open_)
                  (rw
                    (announced-blockchain s (falsified s.mode b)
                      (add_block p s.blockchain (falsified s.mode b)))
                    (extended (falsified s.mode b) lie))
          ]
  ]
]

pub mine_turn-Mined :
    (p : Primitives) (P : Block → Type 0) (views : List View) (tries : List Try)
    (s : BlockchainServer) (reply : Reply Turn)
    → ((b c : Block) (hash : Str)
        → wait_for_block p views ≡ some (ok b)
        → search p b tries ≡ some (ok (c, hash))
        → P (found c hash) × P (falsified s.mode (found c hash)))
    → mine_turn p views tries s ≡ some reply
    → Mined p P s.blockchain reply.server.blockchain
mine_turn-Mined p P views tries s reply kept h = elim (mine_turn_cases p views tries s reply h) [
  | inl same ↦
      subst (λ (x : BlockchainServer). Mined p P s.blockchain x.blockchain) (sym same) unchanged
  | inr (b, c, hash, waited, searched, done) ↦
      let (honest, lie) = kept b c hash waited searched in
      subst (λ (x : Reply Turn). Mined p P s.blockchain x.server.blockchain) (sym done)
        (mined_block-Mined p P s c hash honest lie)
]

-- The chain is linked, or has no block left.
abbrev pub IsIntact : Primitives → List Block → Type 0
IsIntact p bs = IsLinked p bs ⊎ (bs ≡ [])

get_last?-none : (bs : List Block) → get_last? bs ≡ none → bs ≡ []
get_last?-none [] h = refl
get_last?-none (b ∷ []) h = absurd (ground (arith, h))
get_last?-none (b ∷ c ∷ bs) h = absurd (cc (get_last?-none (c ∷ bs) h))

append-IsIntact :
    (p : Primitives) (bs : List Block) (b : Block)
    → Block.verify p b ≡ true
    → check_link (get_last? bs) b ≡ ok tt
    → IsIntact p bs
    → IsIntact p (bs ++ b ∷ [])
append-IsIntact p bs b v link sound = elim (Option-cases (get_last? bs)) [
  | inl e ↦
      let empty = get_last?-none bs e in
      rw empty (inl (record { first = b; later = []; shape = refl; follows = tt }))
  | inr (last, e) ↦ elim sound [
    | inl l ↦
        let after : check_link (some last) b ≡ ok tt = ap (λ o. check_link o b) (sym e) ∙ link in
        inl (IsLinked-append p bs last b l e (unfold check_link in ground (arith, after)) v)
    | inr empty ↦ absurd (ground (arith, e, empty))
  ]
]

pub add_block-IsIntact :
    (p : Primitives) (bc : Blockchain) (b : Block)
    → IsIntact p bc.blocks
    → IsIntact p (add_block p bc b).1.blocks
add_block-IsIntact p bc b sound = elim (outcome (add_block p bc b).0) [
  | returned _ h ↦
      let (v, link, _, step) = add_block_ok p bc b h in
      subst (IsIntact p) (sym (ap (λ r. r.1.blocks) step))
        (append-IsIntact p bc.blocks b v link sound)
  | failed r h ↦ subst (IsIntact p) (sym (add_block_kept p bc b (λ k. cc (k, h)))) sound
  | panicked h ↦ subst (IsIntact p) (sym (add_block_kept p bc b (λ k. cc (k, h)))) sound
]
