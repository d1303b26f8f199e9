-- ===== src/Difficulty.antt =====
-- `GetDifficulty` of internal/blockchain/blockchain.go.
pub mod Window
use nakamato_blockchain.Base.{
  ℕ, zero, suc, ◌-◌, ◌/◌, true, false, Option, none, some, List, ltb, leb, ◌==◌, get_elem?,
  if◌then◌else◌,
}
use nakamato_blockchain.Base.Int.{ℤ, pos, negsuc, ◌-ℤ◌, wrap64}
use nakamato_blockchain.Base.Text.{Str, codes}
use nakamato_blockchain.Types.{Block, Result, ok, panic, ◌>>=◌}
use nakamato_blockchain.Encoding.BigInt.{negate, format_hex}
use nakamato_blockchain.Encoding.Rat
use nakamato_blockchain.Encoding.Rat.{Rat}
use nakamato_blockchain.Crypto.{Primitives, set_string}

abbrev pub target_block_time : ℕ
target_block_time = 20

abbrev pub difficulty_window : ℕ
difficulty_window = 10

abbrev pub dynamic_start : ℕ
dynamic_start = 1000

abbrev pub initial_difficulty : Str
initial_difficulty = codes "fffffffffffffffffffffffffffffffffffffffffffffffffffffffffff"

abbrev pub or_panic {ℓ} : {A : Type ℓ} → Option A → Result A
or_panic none = panic
or_panic (some a) = ok a

-- `bc.Blocks[i]`
abbrev pub block_at : List Block → ℕ → Result Block
block_at blocks i = or_panic (get_elem? blocks i)

abbrev add_inverse : Rat → Option Rat → Rat
add_inverse total none = total
add_inverse total (some r) = Rat.add total r

-- The loop over the window: the sum of the inverse difficulties from index i, for `rounds` blocks. A
-- difficulty of zero has no inverse and is skipped.
unfoldable pub sum_inverses : Primitives → List Block → ℕ → ℕ → Rat → Result Rat
sum_inverses p blocks zero i total = ok total
sum_inverses p blocks (suc rounds) i total = elim (i == 0) [
  | true ↦ sum_inverses p blocks rounds (suc i) total
  | false ↦ block_at blocks i >>= λ b.
      sum_inverses p blocks rounds (suc i)
        (add_inverse total (Rat.reciprocal (set_string p b.header.difficulty)))
]

-- `totalTime / 1000`, which rounds towards zero.
unfoldable pub seconds : ℤ → ℤ
seconds (pos n) = pos (n / 1000)
seconds (negsuc n) = negate (suc n / 1000)

-- The new difficulty from the sum and the time; a division by zero is a panic.
unfoldable pub adjusted : Rat → ℤ → Result Str
adjusted total_difficulty total_time =
    or_panic (Rat.inv (Rat.of_ℤ (seconds total_time))) >>= λ per_second.
    let ratio = Rat.mul total_difficulty per_second in
    let adjusted_ratio = Rat.mul ratio (Rat.of_ℤ (pos target_block_time)) in
    or_panic (Rat.inv adjusted_ratio) >>= λ new_diff. ok (format_hex (Rat.floor new_diff))

unfoldable pub get_difficulty : Primitives → List Block → ℕ → Result Str
unfolding sum_inverses
get_difficulty p blocks cur =
    if leb cur dynamic_start
    then ok initial_difficulty
    else (let start = if ltb (cur - difficulty_window) 2 then 2 else cur - difficulty_window in
        block_at blocks (cur - 1) >>= λ last. block_at blocks (start - 1) >>= λ first.
        let total_time = wrap64 (last.header.timestamp -ℤ first.header.timestamp) in
        sum_inverses p blocks (cur - start) start (Rat.of_ℤ (pos 0)) >>= λ total_difficulty.
        adjusted total_difficulty total_time)
