-- ===== src/Server/Contexts.antt =====
-- The flag, `cancelFunc` and the contexts through calls of `MineBlocks` and `StopMining` that nothing
-- interrupts and between which no goroutine returns.
use nakamato_blockchain.Base.{
  ℕ, ◌<◌, ◌≡◌, ◌⊎◌, refl, inl, inr, true, false, some, List, [], ◌∷◌, arith, subst, suc, Bool-cases,
}
use nakamato_blockchain.Server.{BlockchainServer}
use nakamato_blockchain.Server.Mining.{start_mining, stop_mining}

-- The one is among the others.
abbrev pub Among : {A : Type 0} → A → List A → Type 0
Among x [] = ⊥
Among x (y ∷ ys) = (y ≡ x) ⊎ Among x ys

-- Contexts have numbers below that of the next, and while the flag is set, `cancelFunc` is that of a
-- context that is not cancelled.
pub record IsSteady (s : BlockchainServer) : Type 0 where
  pub held : s.mining ≡ true → (i : ℕ) × (s.cancel_func ≡ some i) × ¬ Among i s.cancelled
  pub given : (i : ℕ) → s.cancel_func ≡ some i → i < s.contexts
  pub below : (i : ℕ) → Among i s.cancelled → i < s.contexts

pub start_mining-IsSteady : (s : BlockchainServer) → IsSteady s → IsSteady (start_mining s).1
unfolding start_mining
start_mining-IsSteady s v = elim (Bool-cases s.mining) [
  | inl on ↦ subst IsSteady (ground (arith, on)) v
  | inr off ↦
      let begun : record s {
        cancel_func = some s.contexts;
        contexts = suc s.contexts;
        mining = true;
      }
          ≡ (start_mining s).1 =
        ground (arith, off) in
      subst IsSteady begun (record {
        held = λ _. (s.contexts, refl, λ k. absurd (omega (arith, v.below s.contexts k)));
        given = λ i e. (let same : s.contexts ≡ i = cc e in omega (arith, same));
        below = λ i k. omega (arith, v.below i k);
      })
]

-- `StopMining` calls no nil function, and clears the flag.
pub stop_mining-IsSteady :
    (s : BlockchainServer)
    → IsSteady s
    → IsSteady (stop_mining s).1 × ((stop_mining s).1.mining ≡ false)
unfolding stop_mining
stop_mining-IsSteady s v = elim (Bool-cases s.mining) [
  | inr off ↦ (subst IsSteady (ground (arith, off)) v, ground (arith, off))
  | inl on ↦
      let (i, e, _) = v.held on in
      let ended : record s { cancelled = i ∷ s.cancelled; mining = false } ≡ (stop_mining s).1 =
        ground (arith, on, e) in
      (
        subst IsSteady ended (record {
          held = λ k. absurd (cc k);
          given = v.given;
          below = λ j k. elim k [
            | inl same ↦ omega (arith, same, v.given i e)
            | inr old ↦ v.below j old
          ];
        }),
        ground (arith, on, e),
      )
]
