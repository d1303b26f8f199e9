-- ===== src/Examples/Clock.antt =====
-- The difficulty of block 1001 on the data of the tests.
use nakamato_blockchain.Base.{
  ℕ, zero, suc, ◌-◌, ◌*◌, ◌/◌, ◌^◌, ◌<◌, ◌≡◌, refl, some, List, [], ◌∷◌, ◌++◌, arith, get_elem?,
  replicate, ℕ_discrete, subst, sym,
}
use nakamato_blockchain.Base.Int.{pos, wrap64, ◌-ℤ◌}
use nakamato_blockchain.Types.{Block, ok, panic}
use nakamato_blockchain.Encoding.BigInt.{format_hex}
use nakamato_blockchain.Crypto.{set_string}
use nakamato_blockchain.Difficulty.{seconds, get_difficulty}
use nakamato_blockchain.Difficulty.Window.{
  HasDifficulty, get_difficulty-window, get_difficulty-instant,
}
use nakamato_blockchain.Examples.{toy, empty_block}
use nakamato_blockchain.Examples.Chain.{initial-parsed}

get_elem?-early {ℓ} :
    {A : Type ℓ} (n i : ℕ) (a b : A) → i < n → get_elem? (replicate n a ++ b ∷ []) i ≡ some a
get_elem?-early zero i a b h = absurd (omega arith)
get_elem?-early (suc n) zero a b h = refl
get_elem?-early (suc n) (suc i) a b h = get_elem?-early n i a b (omega arith)

get_elem?-late {ℓ} : {A : Type ℓ} (n : ℕ) (a b : A) → get_elem? (replicate n a ++ b ∷ []) n ≡ some b
get_elem?-late zero a b = refl
get_elem?-late (suc n) a b = get_elem?-late n a b

abbrev early : Block
early = empty_block 1 []

-- Mined 200 seconds later.
abbrev late : Block
late = record early { header = record early.header { timestamp = pos 200000 } }

-- Blocks of one difficulty, of which the last has its own time.
abbrev blocks_before : Block → List Block
blocks_before b = replicate 1000 early ++ b ∷ []

early-difficulty : set_string toy early.header.difficulty ≡ pos (16 ^ 59 - 1)
early-difficulty = unfold set_string in ground (arith, initial-parsed)

before_same :
    (n j : ℕ) (b : Block)
    → b.header.difficulty ≡ early.header.difficulty
    → j < suc n
    → HasDifficulty toy (replicate n early ++ b ∷ []) (16 ^ 59 - 1) j
before_same n j b e h = elim (ℕ_discrete j n) [
  | yes at_end ↦ (
    b,
    subst (λ i. get_elem? (replicate n early ++ b ∷ []) i ≡ some b) (sym at_end)
        (get_elem?-late n early b),
    rw e early-difficulty,
  )
  | no inside ↦ (early, get_elem?-early n j early b (ground arith), early-difficulty)
]

in_time : seconds (wrap64 (late.header.timestamp -ℤ early.header.timestamp)) ≡ pos 200
unfolding seconds wrap64 ◌-ℤ◌
in_time = refl

no_time : seconds (wrap64 (early.header.timestamp -ℤ early.header.timestamp)) ≡ pos 0
unfolding seconds wrap64 ◌-ℤ◌
no_time = refl

get_difficulty-window_example :
    get_difficulty toy (blocks_before late) 1001 ≡ ok (format_hex (pos ((16 ^ 59 - 1) * 200 / 200)))
get_difficulty-window_example =
    get_difficulty-window toy (blocks_before late) 1001 (16 ^ 59 - 1) late early (omega arith)
      (omega arith) (λ j low high. before_same 1000 j late refl high)
      (get_elem?-late 1000 early late) (get_elem?-early 1000 990 early late (omega arith)) 200
      (omega arith) in_time

get_difficulty-instant_example : get_difficulty toy (blocks_before early) 1001 ≡ panic
get_difficulty-instant_example =
    get_difficulty-instant toy (blocks_before early) 1001 (16 ^ 59 - 1) early early (omega arith)
      (omega arith) (λ j low high. before_same 1000 j early refl high)
      (get_elem?-late 1000 early early) (get_elem?-early 1000 990 early early (omega arith)) no_time
