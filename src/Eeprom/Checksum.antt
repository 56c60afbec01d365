-- ===== src/Eeprom/Checksum.antt =====
-- The checksum loop that both builders and the decoder of ftdi-eeprom/eeprom.c hold. Its counter is
-- an `unsigned char`, so it runs on fuel; `none` means that the fuel ran out.
pub mod Detects
use mathlib.Core.Option.{some-ne-none}
use c_modules.Base.{
  ℕ, zero, suc, ◌+◌, ◌-◌, ◌*◌, ◌/◌, ◌%◌, ◌≤◌, ◌<◌, bit_or, bit_xor, ◌≡◌, refl, sym, ◌∙◌, inl, inr,
  Option, none, some, ltb, if◌then◌else◌, Memory, arith, lt→ltb, Bool-cases, ltb→lt,
}

-- `value = m[p]; value += m[p + 1] << 8;` with an `unsigned short`
unfoldable pub word_at : Memory → ℕ → ℕ
word_at m p = (m p + m (p + 1) * 256) % 65536

-- `checksum = value ^ checksum; checksum = (checksum << 1) | (checksum >> 15);`
unfoldable pub checksum_step : ℕ → ℕ → ℕ
checksum_step checksum value = let x = bit_xor value checksum in bit_or (x * 2) (x / 32768) % 65536

-- `for (; i < n; i++)`
unfoldable pub checksum_loop : ℕ → ℕ → ℕ → ℕ → Memory → Option ℕ
checksum_loop zero n i checksum m = none
checksum_loop (suc fuel) n i checksum m =
    let rest =
      checksum_loop fuel n ((i + 1) % 256) (checksum_step checksum (word_at m (i * 2))) m in
    if ltb i n then rest else some checksum

-- The whole computation over the first `n` words. 256 rounds are one for each value of the counter.
unfoldable pub checksum : ℕ → Memory → Option ℕ
checksum n m = checksum_loop 256 n 0 0xAAAA m

checksum_step-lt : (c v : ℕ) → checksum_step c v < 65536
unfolding checksum_step
checksum_step-lt c v = omega arith

-- What is summed: two memories that agree on the first `n` words have one checksum.
checksum_loop-ext :
    (fuel n i c : ℕ) (m m' : Memory)
    → ((q : ℕ) → q < 2 * n → m q ≡ m' q)
    → checksum_loop fuel n i c m ≡ checksum_loop fuel n i c m'
unfolding checksum_loop word_at
checksum_loop-ext zero n i c m m' same = refl
checksum_loop-ext (suc fuel) n i c m m' same = ground (
  arith,
  same (i * 2),
  same (i * 2 + 1),
  checksum_loop-ext fuel n ((i + 1) % 256) (checksum_step c (word_at m' (i * 2))) m m' same,
)

-- With at most 255 words the counter does not wrap, and the loop ends with a 16-bit value.
checksum_loop-total :
    (fuel n i c : ℕ) (m : Memory)
    → n ≤ 255
    → i ≤ n
    → n - i < fuel
    → c < 65536
    → (r : ℕ) × (checksum_loop fuel n i c m ≡ some r) × (r < 65536)
unfolding checksum_loop
checksum_loop-total zero n i c m small le enough h = absurd (omega arith)
checksum_loop-total (suc fuel) n i c m small le enough h = elim (Bool-cases (ltb i n)) [
  | inl more ↦
      let lt : i < n = ltb→lt i n more in
      rw more (
        checksum_loop-total fuel n ((i + 1) % 256) (checksum_step c (word_at m (i * 2))) m small
          (omega arith) (omega arith) (checksum_step-lt c (word_at m (i * 2))))
  | inr done ↦ rw done (c, refl, h)
]

-- With 256 words or more the 8-bit counter stays below the bound, and no fuel is enough.
pub checksum_loop-none :
    (fuel n i c : ℕ) (m : Memory) → 256 ≤ n → i < 256 → checksum_loop fuel n i c m ≡ none
unfolding checksum_loop
checksum_loop-none zero n i c m big h = refl
checksum_loop-none (suc fuel) n i c m big h = rw (lt→ltb i n (omega arith)) (
    checksum_loop-none fuel n ((i + 1) % 256) (checksum_step c (word_at m (i * 2))) m big
      (omega arith))

pub checksum-ext :
    (n : ℕ) (m m' : Memory) → ((q : ℕ) → q < 2 * n → m q ≡ m' q) → checksum n m ≡ checksum n m'
unfolding checksum
checksum-ext n m m' same = checksum_loop-ext 256 n 0 0xAAAA m m' same

pub checksum-total :
    (n : ℕ) (m : Memory) → n ≤ 255 → (r : ℕ) × (checksum n m ≡ some r) × (r < 65536)
unfolding checksum
checksum-total n m small =
    checksum_loop-total 256 n 0 0xAAAA m small (omega arith) (omega arith) (omega arith)

pub checksum-none : (n : ℕ) (m : Memory) → 256 ≤ n → checksum n m ≡ none
unfolding checksum
checksum-none n m big = checksum_loop-none 256 n 0 0xAAAA m big (omega arith)

-- Where 256 rounds do not end the loop, no number of rounds does.
checksum-fuel :
    (n : ℕ) (m : Memory) → checksum n m ≡ none → (fuel : ℕ) → checksum_loop fuel n 0 0xAAAA m ≡ none
checksum-fuel n m stuck fuel = elim (Bool-cases (ltb n 256)) [
  | inl few ↦
      let lt = ltb→lt n 256 few in
      let t = checksum-total n m (omega (arith, lt)) in absurd (some-ne-none t.0 (sym t.1 ∙ stuck))
  | inr many ↦ checksum_loop-none fuel n 0 0xAAAA m (ground (arith, many)) (omega arith)
]
