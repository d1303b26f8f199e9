-- ===== src/PeerManager/Blacklist.antt =====
-- Which peers are blacklisted after a run of invalid blocks.
use nakamato_blockchain.Base.{
  ℕ, suc, ◌+◌, ◌<◌, ◌≡◌, ◌≢◌, refl, ap, subst, true, List, [], ◌∷◌, arith, length, leb,
  if◌then◌else◌, ◌∙◌,
}
use nakamato_blockchain.Base.Int.{pos, ◌+ℤ◌, wrap64, int64_half}
use nakamato_blockchain.Base.Text.{Str, Str-discrete, str_eq}
use nakamato_blockchain.Base.Dict.{lookup, lookup-insert}
use nakamato_blockchain.PeerManager.{
  PeerManager, new_peer_manager, or_zero, is_blacklisted, increment_invalid_count,
}

-- The manager after an invalid block from each of the peers in turn.
unfoldable pub increments : PeerManager → List Str → PeerManager
increments pm [] = pm
increments pm (a ∷ as') = increments (increment_invalid_count pm a) as'

-- How often an address stands in a list.
unfoldable pub times : Str → List Str → ℕ
times a [] = 0
times a (b ∷ bs) = (if str_eq a b then 1 else 0) + times a bs

-- The count of an address, and that it is blacklisted from 3 on.
pub record Counts (pm : PeerManager) (a : Str) (c : ℕ) : Type 0 where
  pub counted : or_zero (lookup a pm.invalid_count) ≡ pos c
  pub listed : is_blacklisted pm a ≡ leb 3 c

wrap64-suc : (c : ℕ) → suc c < int64_half → wrap64 (pos c +ℤ pos 1) ≡ pos (suc c)
unfolding wrap64 ◌+ℤ◌
wrap64-suc c h = ground arith

pub Counts-increment_self :
    (pm : PeerManager) (a : Str) (c : ℕ)
    → Counts pm a c
    → suc c < int64_half
    → Counts (increment_invalid_count pm a) a (suc c)
unfolding increment_invalid_count is_blacklisted
Counts-increment_self pm a c k small =
    let n = wrap64 (or_zero (lookup a pm.invalid_count) +ℤ pos 1) in
    let e : n ≡ pos (suc c) = ap (λ z. wrap64 (z +ℤ pos 1)) k.counted ∙ wrap64-suc c small in
    record {
      counted = ground (arith, e, lookup-insert a a n pm.invalid_count);
      listed = ground (arith, e, k.listed, lookup-insert a a true pm.blacklisted);
    }

Counts-increment_ne :
    (pm : PeerManager) (a b : Str) (c : ℕ)
    → Counts pm a c
    → a ≢ b
    → Counts (increment_invalid_count pm b) a c
unfolding increment_invalid_count is_blacklisted
Counts-increment_ne pm a b c k other =
    let n = wrap64 (or_zero (lookup b pm.invalid_count) +ℤ pos 1) in
    record {
      counted = ground (arith, k.counted, lookup-insert b a n pm.invalid_count);
      listed = ground (arith, k.listed, lookup-insert b a true pm.blacklisted);
    }

Counts-increments :
    (pm : PeerManager) (a : Str) (c : ℕ) (xs : List Str)
    → Counts pm a c
    → c + length xs < int64_half
    → Counts (increments pm xs) a (times a xs + c)
unfolding increments times
Counts-increments pm a c [] k small = subst (Counts pm a) (omega arith) k
Counts-increments pm a c (x ∷ xs) k small = elim (Str-discrete a x) [
  | yes same ↦
      let k' : Counts (increment_invalid_count pm x) a (suc c) =
        subst (λ b. Counts (increment_invalid_count pm b) a (suc c)) same
          (Counts-increment_self pm a c k (omega arith)) in
      subst (Counts (increments (increment_invalid_count pm x) xs) a) (ground arith)
        (Counts-increments (increment_invalid_count pm x) a (suc c) xs k' (omega arith))
  | no other ↦ subst (Counts (increments (increment_invalid_count pm x) xs) a) (ground arith) (
      Counts-increments (increment_invalid_count pm x) a c xs (Counts-increment_ne pm a x c k other)
        (omega arith))
]

pub Counts-new_peer_manager : (a : Str) → Counts new_peer_manager a 0
unfolding new_peer_manager is_blacklisted lookup
Counts-new_peer_manager a = record { counted = refl; listed = refl }

-- After a run of `IncrementInvalidCount` calls on a new peer manager, of fewer than 2 ^ 63 calls,
-- an address is blacklisted exactly when three or more of them were for it.
pub is_blacklisted-increments :
    (a : Str) (xs : List Str)
    → length xs < int64_half
    → is_blacklisted (increments new_peer_manager xs) a ≡ leb 3 (times a xs)
is_blacklisted-increments a xs small =
    let k = Counts-increments new_peer_manager a 0 xs (Counts-new_peer_manager a) (omega arith) in
    k.listed ∙ ground arith
