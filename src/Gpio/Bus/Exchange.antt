-- ===== src/Gpio/Bus/Exchange.antt =====
-- What spi_send_receive of gpio-spi/spi_gpio.c does, as an exchange of lists of bits.
use c_modules.Base.{
  ne→==, inr, inl, ◌⊎◌, ℕ, zero, suc, ◌+◌, ◌*◌, ◌/◌, ◌%◌, ◌^◌, ◌<◌, ◌≤◌, ◌≡◌, refl, ◌∙◌, ap, arith,
  Bool, true, false, not, Option, some, List, [], ◌∷◌, ◌==◌, if◌then◌else◌, bit_and, bit_or,
}
use native.Mathlib.Nat.{pow-suc}
use c_modules.Base.Bits.{bit_and_pow}
use c_modules.Base.Xor.{bit_or_above}
use c_modules.Gpio.Requests.{RalinkGpio, Driver}
use c_modules.Gpio.Bus.{SpiPins, shift_bit, spi_loop, after_loop, rest_low, spi_send_receive}

-- The last `n` binary digits of a number, the highest first.
unfoldable pub bits : (n x : ℕ) → List Bool
bits zero x = []
bits (suc n) x = not (x / 2 ^ n % 2 == 0) ∷ bits n x

-- The number that binary digits make up behind those of `acc`.
unfoldable pub from_bits : ℕ → List Bool → ℕ
from_bits acc [] = acc
from_bits acc (b ∷ bs) = from_bits (2 * acc + (if b then 1 else 0)) bs

power-pos : (n : ℕ) → 0 < 2 ^ n
power-pos zero = omega arith
power-pos (suc n) = omega (arith, power-pos n, pow-suc 2 n)

bit_cases : (b : ℕ) → b < 2 → (b ≡ 0) ⊎ (b ≡ 1)
bit_cases b lt = omega arith

bit_flag : (k x : ℕ) → k < 8 → x < 256 → not (bit_and x (2 ^ k) == 0) ≡ not (x / 2 ^ k % 2 == 0)
bit_flag k x hk hx = elim (bit_cases (x / 2 ^ k % 2) (omega arith)) [
  | inl clear ↦
      let e : bit_and x (2 ^ k) ≡ 0 =
        bit_and_pow k x hk hx ∙ ap (λ t. t * 2 ^ k) clear ∙ omega arith in
      rw (e, clear) refl
  | inr there ↦
      let e : bit_and x (2 ^ k) ≡ 2 ^ k =
        bit_and_pow k x hk hx ∙ ap (λ t. t * 2 ^ k) there ∙ omega arith in
      rw (e, there, ne→== (2 ^ k) 0 (λ h. absurd (omega (arith, power-pos k, h)))) refl
]

-- The value of `bit` with `n` rounds left.
weight : ℕ → ℕ
weight zero = 0
weight (suc n) = 2 ^ n

weight_next : (n : ℕ) → 2 ^ n / 2 ≡ weight n
unfolding weight
weight_next zero = refl
weight_next (suc n) = omega (arith, pow-suc 2 n)

doubled : (k acc b : ℕ) → acc * 2 ^ suc k + b * 2 ^ k ≡ (2 * acc + b) * 2 ^ k
doubled k acc b =
    ap (λ w. acc * w + b * 2 ^ k) {x = 2 ^ suc k} {y = 2 ^ k * 2} (omega (arith, pow-suc 2 k))
    ∙ grind arith

-- One round's change of the received byte.
received :
    (k acc : ℕ) (level : Bool)
    → (if level then bit_or (acc * 2 ^ suc k) (2 ^ k) else acc * 2 ^ suc k)
      ≡ (2 * acc + (if level then 1 else 0)) * 2 ^ k
received k acc true =
    ap (λ t. bit_or t (2 ^ k)) {x = acc * 2 ^ suc k} {y = acc * 2 ^ suc k} refl
    ∙ bit_or_above (suc k) acc (2 ^ k) (omega (arith, pow-suc 2 k, power-pos k))
    ∙ omega arith
    ∙ doubled k acc 1
received k acc false = omega arith ∙ doubled k acc 0

module _ {S : Type 0} (ralink : RalinkGpio) (driver : Driver S) (fd : Option ℕ)
    (pins : SpiPins) where
  -- The bits go out in order, one round each; the sampled levels come back in the same order.
  unfoldable pub exchange : List Bool → S → List Bool × S
  exchange [] s = ([], s)
  exchange (b ∷ bs) s =
      let (level, s) = shift_bit ralink driver fd pins b s in
      let (levels, s) = exchange bs s in (level ∷ levels, s)

  spi_loop-exchange :
      (n acc x : ℕ) (s : S)
      → n ≤ 8
      → x < 256
      → spi_loop ralink driver fd pins (suc n) (weight n) x (acc * 2 ^ n) s
        ≡ some (from_bits acc (exchange (bits n x) s).0, (exchange (bits n x) s).1)
  unfolding spi_loop weight exchange bits from_bits
  spi_loop-exchange zero acc x s small byte = ap (λ a. some (a, s)) (omega arith)
  spi_loop-exchange (suc k) acc x s small byte =
      let sent = not (x / 2 ^ k % 2 == 0) in
      let round = shift_bit ralink driver fd pins sent s in
      rw
        (
          ne→== (2 ^ k) 0 (λ h. absurd (omega (arith, power-pos k, h))),
          bit_flag k x (omega arith) byte,
          weight_next k,
          received k acc round.0,
        )
        (spi_loop-exchange k (2 * acc + (if round.0 then 1 else 0)) x round.1 (omega arith) byte)

  -- With 9 rounds of fuel, for a byte, spi_send_receive ends; it sends the byte's 8 bits, the highest
  -- first, by shift_bit, returns the number that the sampled levels make up, the first the highest,
  -- and goes on with rest_low.
  pub spi_send_receive-exchange :
      (x : ℕ) (s : S)
      → x < 256
      → spi_send_receive ralink driver fd pins 9 x s
        ≡ some (
          from_bits 0 (exchange (bits 8 x) s).0,
          rest_low ralink driver fd pins (exchange (bits 8 x) s).1,
        )
  unfolding spi_send_receive after_loop weight
  spi_send_receive-exchange x s byte =
      let e : spi_loop ralink driver fd pins 9 0x80 x 0 s
          ≡ some (from_bits 0 (exchange (bits 8 x) s).0, (exchange (bits 8 x) s).1) =
        spi_loop-exchange 8 0 x s (omega arith) byte in
      ap (after_loop ralink driver fd pins) e
