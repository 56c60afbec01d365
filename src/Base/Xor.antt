-- ===== src/Base/Xor.antt =====
-- Exclusive or and the rotation of a 16-bit word, at variables: both lose nothing.
use Prim.Native.Nat.{
  ℕ, zero, suc, ◌+◌, ◌-◌, ◌*◌, ◌/◌, ◌%◌, ◌^◌, ◌≤◌, ◌<◌, max, min, bit_and, bit_or, bit_xor, digits,
  differ, bit_and-bitwise, bit_or-bitwise, bit_xor-bitwise,
}
use mathlib.Core.Path.{◌≡◌, refl, ap, ap₂, ◌∙◌}
use native.Mathlib.Omega.{arith}
use native.Mathlib.Nat.{pow-suc, add-zero, add-suc}

-- The native operations count digits, and the first number bounds the count: one digit more than
-- that changes nothing, and so any number of them.
module _ (rest : ℕ → ℕ) (op : ℕ → ℕ → ℕ) where
  one_more : (x y count : ℕ) → x ≤ count → digits rest op (suc count) x y ≡ digits rest op count x y
  one_more zero y zero enough = refl
  one_more zero y (suc count) enough = refl
  one_more (suc x) y zero enough = absurd (omega arith)
  one_more (suc x) y (suc count) enough =
      ap (λ (high : ℕ). high * 2 + op (suc x % 2) (y % 2))
        (one_more (suc x / 2) (y / 2) count (omega arith))

  many_more :
      (k x y count : ℕ) → x ≡ count → digits rest op (count + k) x y ≡ digits rest op count x y
  many_more zero x y count enough = rw add-zero refl
  many_more (suc k) x y count enough =
      rw add-suc (one_more x y (count + k) (omega arith) ∙ many_more k x y count enough)

  enough_digits : (x y count : ℕ) → x ≤ count → digits rest op count x y ≡ digits rest op x x y
  enough_digits x y count le =
      let split : count ≡ x + (count - x) = omega arith in
      rw split (many_more (count - x) x y x refl)

differ_bit : (x y : ℕ) → x < 2 → y < 2 → differ x y ≡ (x + y) % 2
differ_bit zero zero h k = refl
differ_bit zero (suc zero) h k = refl
differ_bit zero (suc (suc y)) h k = absurd (omega arith)
differ_bit (suc zero) zero h k = refl
differ_bit (suc zero) (suc zero) h k = refl
differ_bit (suc zero) (suc (suc y)) h k = absurd (omega arith)
differ_bit (suc (suc x)) y h k = absurd (omega arith)

-- The lowest digit and the rest.
bit_xor_digit : (a b : ℕ) → bit_xor a b ≡ bit_xor (a / 2) (b / 2) * 2 + (a % 2 + b % 2) % 2
bit_xor_digit zero b = omega (arith, bit_xor-bitwise 0 b, bit_xor-bitwise 0 (b / 2))
bit_xor_digit (suc a) b = omega (
  arith,
  bit_xor-bitwise (suc a) b,
  bit_xor-bitwise (suc a / 2) (b / 2),
  enough_digits (λ t. t) differ (suc a / 2) (b / 2) a (omega arith),
  differ_bit (suc a % 2) (b % 2) (omega arith) (omega arith),
)

pub bit_or_digit : (a b : ℕ) → bit_or a b ≡ bit_or (a / 2) (b / 2) * 2 + max (a % 2) (b % 2)
bit_or_digit zero b = omega (arith, bit_or-bitwise 0 b, bit_or-bitwise 0 (b / 2))
bit_or_digit (suc a) b = omega (
  arith,
  bit_or-bitwise (suc a) b,
  bit_or-bitwise (suc a / 2) (b / 2),
  enough_digits (λ t. t) max (suc a / 2) (b / 2) a (omega arith),
)

bit_and_digit : (a b : ℕ) → bit_and a b ≡ bit_and (a / 2) (b / 2) * 2 + min (a % 2) (b % 2)
bit_and_digit zero b = omega (arith, bit_and-bitwise 0 b, bit_and-bitwise 0 (b / 2))
bit_and_digit (suc a) b = omega (
  arith,
  bit_and-bitwise (suc a) b,
  bit_and-bitwise (suc a / 2) (b / 2),
  enough_digits (λ t. zero) min (suc a / 2) (b / 2) a (omega arith),
)

-- A mask without its lowest digits looks at the digits above them.
bit_and_2 : (x m : ℕ) → bit_and x (m * 2) ≡ bit_and (x / 2) m * 2
bit_and_2 x m =
    let e : bit_and (x / 2) (m * 2 / 2) ≡ bit_and (x / 2) m = ap (bit_and (x / 2)) (omega arith) in
    omega (arith, bit_and_digit x (m * 2), e)

bit_and_4 : (x m : ℕ) → bit_and x (m * 4) ≡ bit_and (x / 4) m * 4
bit_and_4 x m =
    let e : bit_and x (m * 4) ≡ bit_and x (m * 2 * 2) = ap (bit_and x) (omega arith) in
    let d : bit_and (x / 2 / 2) m ≡ bit_and (x / 4) m = ap (λ t. bit_and t m) (omega arith) in
    omega (arith, e, bit_and_2 x (m * 2), bit_and_2 (x / 2) m, d)

bit_and_16 : (x m : ℕ) → bit_and x (m * 16) ≡ bit_and (x / 16) m * 16
bit_and_16 x m =
    let e : bit_and x (m * 16) ≡ bit_and x (m * 4 * 4) = ap (bit_and x) (omega arith) in
    let d : bit_and (x / 4 / 4) m ≡ bit_and (x / 16) m = ap (λ t. bit_and t m) (omega arith) in
    omega (arith, e, bit_and_4 x (m * 4), bit_and_4 (x / 4) m, d)

pub bit_and_256 : (x m : ℕ) → bit_and x (m * 256) ≡ bit_and (x / 256) m * 256
bit_and_256 x m =
    let e : bit_and x (m * 256) ≡ bit_and x (m * 16 * 16) = ap (bit_and x) (omega arith) in
    let d : bit_and (x / 16 / 16) m ≡ bit_and (x / 256) m = ap (λ t. bit_and t m) (omega arith) in
    omega (arith, e, bit_and_16 x (m * 16), bit_and_16 (x / 16) m, d)

cancel_fuel : (n a a' b : ℕ) → a ≤ n → a' ≤ n → bit_xor a b ≡ bit_xor a' b → a ≡ a'
cancel_fuel zero a a' b p q e = omega arith
cancel_fuel (suc n) a a' b p q e =
    let d = bit_xor_digit a b in
    let d' = bit_xor_digit a' b in
    let halves : bit_xor (a / 2) (b / 2) ≡ bit_xor (a' / 2) (b / 2) = omega arith in
    omega (arith, cancel_fuel n (a / 2) (a' / 2) (b / 2) (omega arith) (omega arith) halves)

-- Exclusive or with a fixed number can be undone, on either side.
pub bit_xor_cancel : (a a' b : ℕ) → bit_xor a b ≡ bit_xor a' b → a ≡ a'
bit_xor_cancel a a' b e = cancel_fuel (a + a') a a' b (omega arith) (omega arith) e

comm_fuel : (n a b : ℕ) → a + b ≤ n → bit_xor a b ≡ bit_xor b a
comm_fuel zero zero zero p = refl
comm_fuel zero zero (suc b) p = absurd (omega arith)
comm_fuel zero (suc a) b p = absurd (omega arith)
comm_fuel (suc n) a b p =
    omega (arith, bit_xor_digit a b, bit_xor_digit b a, comm_fuel n (a / 2) (b / 2) (omega arith))

pub bit_xor_comm : (a b : ℕ) → bit_xor a b ≡ bit_xor b a
bit_xor_comm a b = comm_fuel (a + b) a b (omega arith)

-- It stays within the width of both.
pub bit_xor-lt : (k a b : ℕ) → a < 2 ^ k → b < 2 ^ k → bit_xor a b < 2 ^ k
bit_xor-lt zero a b p q = omega (
  arith,
  bit_xor_digit a b,
  ap (λ (t : ℕ). bit_xor t b) {x = a} {y = 0} (omega arith),
  bit_xor-bitwise 0 b,
)
bit_xor-lt (suc k) a b p q = omega (
  arith,
  bit_xor_digit a b,
  pow-suc 2 k,
  bit_xor-lt k (a / 2) (b / 2) (omega (arith, pow-suc 2 k)) (omega (arith, pow-suc 2 k)),
)

or_zero_fuel : (n x : ℕ) → x ≤ n → bit_or x 0 ≡ x
or_zero_fuel zero zero p = refl
or_zero_fuel zero (suc x) p = absurd (omega arith)
or_zero_fuel (suc n) x p = omega (arith, bit_or_digit x 0, or_zero_fuel n (x / 2) (omega arith))

-- `(x << 1) | b` for a bit.
pub bit_or_low : (x b : ℕ) → b < 2 → bit_or (x * 2) b ≡ x * 2 + b
bit_or_low x b h =
    let e : bit_or (x * 2 / 2) (b / 2) ≡ bit_or x 0 =
      ap₂ bit_or {x = x * 2 / 2} {y = x} {u = b / 2} {v = 0} (omega arith) (omega arith) in
    omega (arith, bit_or_digit (x * 2) b, e, or_zero_fuel x x (omega arith))

-- `(q << k) | r` where `r` fits below: a sum.
pub bit_or_above : (k q r : ℕ) → r < 2 ^ k → bit_or (q * 2 ^ k) r ≡ q * 2 ^ k + r
bit_or_above zero q r fits =
    let e : bit_or (q * 1) r ≡ bit_or q 0 =
      ap₂ bit_or {x = q * 1} {y = q} {u = r} {v = 0} (omega arith) (omega arith) in
    omega (arith, e, or_zero_fuel q q (omega arith))
bit_or_above (suc k) q r fits =
    let double : q * 2 ^ suc k ≡ q * 2 ^ k * 2 =
      omega (arith, ap (λ (t : ℕ). q * t) (pow-suc 2 k)) in
    let e : bit_or (q * 2 ^ suc k / 2) (r / 2) ≡ bit_or (q * 2 ^ k) (r / 2) =
      ap (λ (t : ℕ). bit_or t (r / 2)) (omega arith) in
    omega (
      arith,
      bit_or_digit (q * 2 ^ suc k) r,
      e,
      bit_or_above k q (r / 2) (omega (arith, pow-suc 2 k)),
    )
