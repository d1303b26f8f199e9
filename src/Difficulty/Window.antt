-- ===== src/Difficulty/Window.antt =====
-- The difficulty after a window of blocks that all had the same difficulty.
use native.Mathlib.Nat.{mul-div-mul_left}
use nakamato_blockchain.Base.{
  ℕ, zero, suc, ◌+◌, ◌-◌, ◌*◌, ◌/◌, ◌≤◌, ◌<◌, ◌≡◌, refl, sym, ap, subst, false, some, List, arith,
  get_elem?, ltb, leb, ◌∙◌,
}
use nakamato_blockchain.Base.Int.{ℤ, pos, ◌-ℤ◌, wrap64}
use nakamato_blockchain.Types.{Block, ok, panic}
use nakamato_blockchain.Encoding.BigInt.{format_hex}
use nakamato_blockchain.Encoding.Rat
use nakamato_blockchain.Encoding.Rat.{Rat, ◌*ℤ◌}
use nakamato_blockchain.Crypto.{Primitives, set_string}
use nakamato_blockchain.Difficulty.{
  difficulty_window, dynamic_start, sum_inverses, seconds, adjusted, get_difficulty,
}

-- The rational is n / d.
record IsOver (r : Rat) (n d : ℕ) : Type 0 where
  num : ℕ
  is_num : r.num ≡ pos num
  positive : 0 < r.den
  equal : num * d ≡ n * r.den

-- Block j of the chain has the difficulty d.
abbrev pub HasDifficulty : Primitives → List Block → ℕ → ℕ → Type 0
HasDifficulty p blocks d j =
    (b : Block) × (get_elem? blocks j ≡ some b) × (set_string p b.header.difficulty ≡ pos d)

mul-pos : (m n : ℕ) → 0 < m → 0 < n → 0 < m * n
mul-pos (suc m) (suc n) h k = omega arith
mul-pos zero n h k = absurd (omega arith)
mul-pos (suc m) zero h k = absurd (omega arith)

add-IsOver :
    (r : Rat) (n d : ℕ)
    → 0 < d
    → IsOver r n d
    → (one : Rat) × (Rat.reciprocal (pos d) ≡ some one) × IsOver (Rat.add r one) (suc n) d
unfolding Rat.reciprocal Rat.add
add-IsOver r n zero h o = absurd (omega arith)
add-IsOver r n (suc d) h o = (
  record { num = pos 1; den = suc d },
  refl,
  record {
    num = o.num * suc d + 1 * r.den;
    is_num = ground (arith, o.is_num);
    positive = mul-pos r.den (suc d) o.positive h;
    equal = omega (arith, ap (λ t. t * suc d) o.equal);
  },
)

sum_inverses-IsOver :
    (p : Primitives) (blocks : List Block) (rounds i n d : ℕ) (r : Rat)
    → 0 < d
    → 0 < i
    → ((j : ℕ) → i ≤ j → j < i + rounds → HasDifficulty p blocks d j)
    → IsOver r n d
    → (total : Rat) × (sum_inverses p blocks rounds i r ≡ ok total) × IsOver total (n + rounds) d
unfolding sum_inverses
sum_inverses-IsOver p blocks zero i n d r h k same o =
    (r, refl, subst (λ m. IsOver r m d) (omega arith) o)
sum_inverses-IsOver p blocks (suc rounds) i n d r h k same o =
    let (b, at_i, e) = same i (omega arith) (omega arith) in
    let (one, f, o') = add-IsOver r n d h o in
    let (total, g, final) =
      sum_inverses-IsOver p blocks rounds (suc i) (suc n) d (Rat.add r one) h (omega arith)
        (λ j low high. same j (omega arith) (omega arith)) o' in
    (total, ground (arith, k, at_i, e, f, g), subst (λ m. IsOver total m d) (omega arith) final)

-- The fraction reduced.
IsOver-quotient :
    (r : Rat) (n d t : ℕ) (o : IsOver r n d)
    → 0 < n
    → 0 < o.num
    → r.den * t / (o.num * 20) ≡ d * t / (n * 20)
IsOver-quotient r n d t o h k =
    let top : n * (r.den * t) ≡ o.num * (d * t) = omega (arith, ap (λ x. x * t) o.equal) in
    sym (mul-div-mul_left (r.den * t) (o.num * 20) h)
    ∙ ap (λ x. x / (n * (o.num * 20))) top
    ∙ ap (λ x. o.num * (d * t) / x) (omega arith)
    ∙ mul-div-mul_left (d * t) (n * 20) k

IsOver-num : (n d den a : ℕ) → 0 < n → 0 < den → a * d ≡ n * den → 0 < a
IsOver-num n d den zero h k e = omega (arith, mul-pos n den h k, e)
IsOver-num n d den (suc a) h k e = omega arith

Rat-inv_pos :
    (r : Rat) (m : ℕ)
    → r.num ≡ pos m
    → 0 < m
    → Rat.inv r ≡ some (record { num = pos r.den; den = m })
unfolding Rat.inv
Rat-inv_pos r zero e h = absurd (omega arith)
Rat-inv_pos r (suc m) e h = rw e refl

Rat-mul_num :
    (a b : Rat) (m n : ℕ) → a.num ≡ pos m → b.num ≡ pos n → (Rat.mul a b).num ≡ pos (m * n)
unfolding Rat.mul ◌*ℤ◌
Rat-mul_num a b m n e f = rw (e, f) (ground arith)

-- d * t / (20 * n), of a sum n / d and a time of t seconds.
adjusted-IsOver :
    (r : Rat) (n d t : ℕ) (time : ℤ)
    → 0 < n
    → 0 < t
    → seconds time ≡ pos t
    → IsOver r n d
    → adjusted r time ≡ ok (format_hex (pos (d * t / (n * 20))))
unfolding adjusted
adjusted-IsOver r n d t time h l e o =
    let some_num = IsOver-num n d r.den o.num h o.positive o.equal in
    let per_second : Rat = record { num = pos 1; den = t } in
    let ratio = Rat.mul r per_second in
    let adjusted_ratio = Rat.mul ratio (Rat.of_ℤ (pos 20)) in
    let inverted = Rat-inv_pos (Rat.of_ℤ (seconds time)) t e l in
    let top : adjusted_ratio.num ≡ pos (o.num * 1 * 20) =
      Rat-mul_num ratio (Rat.of_ℤ (pos 20)) (o.num * 1) 20
        (Rat-mul_num r per_second o.num 1 o.is_num refl) refl in
    let again = Rat-inv_pos adjusted_ratio (o.num * 1 * 20) top (omega (arith, some_num)) in
    let rounded : Rat.floor (record { num = pos adjusted_ratio.den; den = o.num * 1 * 20 })
        ≡ pos (d * t / (n * 20)) =
      unfold Rat.floor Rat.mul in
      ap pos (
        ap (λ x. x / (o.num * 1 * 20)) (omega arith)
        ∙ ap (λ x. r.den * t / x) (omega arith)
        ∙ IsOver-quotient r n d t o h some_num) in
    rw inverted (rw again (ap (λ z. ok (format_hex z)) rounded))

module _ (p : Primitives) (blocks : List Block) (cur d : ℕ) (last first : Block)
    (dynamic : dynamic_start < cur) (some_difficulty : 0 < d)
    (same : (j : ℕ) → cur ≤ j + difficulty_window → j < cur → HasDifficulty p blocks d j)
    (at_end : get_elem? blocks (cur - 1) ≡ some last)
    (at_start : get_elem? blocks (cur - difficulty_window - 1) ≡ some first) where
  -- The time of the window, in milliseconds.
  abbrev window_time : ℤ
  window_time = wrap64 (last.header.timestamp -ℤ first.header.timestamp)

  window-adjusted :
      (total : Rat) × (get_difficulty p blocks cur ≡ adjusted total window_time) × IsOver total 10 d
  unfolding get_difficulty
  window-adjusted =
      let begun : IsOver (Rat.of_ℤ (pos 0)) 0 d = record {
        num = 0;
        is_num = refl;
        positive = omega arith;
        equal = omega arith;
      } in
      let (total, summed, over) =
        sum_inverses-IsOver p blocks (cur - (cur - difficulty_window)) (cur - difficulty_window) 0 d
          (Rat.of_ℤ (pos 0)) some_difficulty (omega arith)
          (λ j low high. same j (omega arith) (omega arith)) begun in
      let ten : 0 + (cur - (cur - difficulty_window)) ≡ 10 = omega arith in
      let late : leb cur 1000 ≡ false = ground arith in
      let inside : ltb (cur - 10) 2 ≡ false = ground arith in
      (
        total,
        rw (late, inside) (rw (at_end, at_start, summed) refl),
        subst (λ n. IsOver total n d) ten over,
      )

  -- From block 1001 on, where the last ten blocks before block n all have the difficulty d and t >
  -- 0 is the whole seconds from the timestamp of block n - 11 to that of block n - 1, the
  -- difficulty of block n is d * t / 200, rounded down: it is kept when the ten blocks took 200
  -- seconds.
  pub get_difficulty-window :
      (t : ℕ)
      → 0 < t
      → seconds (wrap64 (last.header.timestamp -ℤ first.header.timestamp)) ≡ pos t
      → get_difficulty p blocks cur ≡ ok (format_hex (pos (d * t / 200)))
  get_difficulty-window t some_time lasted =
      let (total, e, over) = window-adjusted in
      e ∙ adjusted-IsOver total 10 d t window_time (omega arith) some_time lasted over

  -- From block 1001 on, where the last ten blocks before block n all have the same difficulty and
  -- it is less than a second from the timestamp of block n - 11 to that of block n - 1,
  -- `GetDifficulty` panics.
  pub get_difficulty-instant :
      seconds (wrap64 (last.header.timestamp -ℤ first.header.timestamp)) ≡ pos 0
      → get_difficulty p blocks cur ≡ panic
  unfolding adjusted Rat.inv
  get_difficulty-instant lasted = let (total, e, over) = window-adjusted in e ∙ rw lasted refl
