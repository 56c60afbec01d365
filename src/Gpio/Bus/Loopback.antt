-- ===== src/Gpio/Bus/Loopback.antt =====
-- The bus of gpio-spi/spi_gpio.c with its data output wired to its data input.
use c_modules.Base.{
  ℕ, ◌<◌, ◌≡◌, refl, ◌∙◌, ap, Bool, true, false, not, some, List, [], ◌∷◌, ◌==◌, if◌then◌else◌,
  bit_and,
}
use c_modules.Base.Bits.{byte_law, mismatches}
use c_modules.Gpio.Requests.{
  RalinkGpio, Driver, switch_gpio, set_gpio_value, get_gpio_value, gpio_set_int, gpio_clear_int,
  gpio_read_int, request,
}
use c_modules.Gpio.Bus.{SpiPins, shift_bit, spi_send_receive, rest_low}
use c_modules.Gpio.Bus.Exchange.{bits, from_bits, exchange, spi_send_receive-exchange}

-- What the driver's documentation says of SET, CLEAR and READ, for the descriptor `n` on wires that
-- lead mosi back to miso: `level` is the state of the wire.
pub record IsLooped {S : Type 0} (ralink : RalinkGpio) (driver : Driver S) (n : ℕ) (pins : SpiPins)
    : Type 0 where
  pub level : S → Bool
  pub data_set :
      (s : S)
      → let p = switch_gpio ralink pins.spi_mosi in
        level (driver.ioctl s n (ralink.set p.group) p.value).state ≡ true
  pub data_clear :
      (s : S)
      → let p = switch_gpio ralink pins.spi_mosi in
        level (driver.ioctl s n (ralink.clear p.group) p.value).state ≡ false
  pub clock_set :
      (s : S)
      → let p = switch_gpio ralink pins.spi_sck in
        level (driver.ioctl s n (ralink.set p.group) p.value).state ≡ level s
  pub miso_read :
      (s : S)
      → let p = switch_gpio ralink pins.spi_miso in
        (bit_and p.value (driver.ioctl_pointer s n (ralink.read p.group) 0).value == 0)
        ≡ not (level s)

bits-from_bits : (x : ℕ) → x < 256 → from_bits 0 (bits 8 x) ≡ x
unfolding mismatches from_bits bits
bits-from_bits x byte = byte_law (λ y. from_bits 0 (bits 8 y)) (λ y. y) x refl byte

module _ {S : Type 0} (ralink : RalinkGpio) (driver : Driver S) (n : ℕ) (pins : SpiPins)
    (looped : IsLooped ralink driver n pins) where
  shift_bit-level : (b : Bool) (s : S) → (shift_bit ralink driver (some n) pins b s).0 ≡ b
  unfolding shift_bit set_gpio_value get_gpio_value gpio_set_int gpio_clear_int gpio_read_int
      request
  shift_bit-level true s =
      let p = switch_gpio ralink pins.spi_mosi in
      let c = switch_gpio ralink pins.spi_sck in
      let s1 = (driver.ioctl s n (ralink.set p.group) p.value).state in
      let s2 = (driver.ioctl s1 n (ralink.set c.group) c.value).state in
      ap (λ zero_read. if zero_read then false else true)
        (looped.miso_read s2 ∙ ap not (looped.clock_set s1 ∙ looped.data_set s))
  shift_bit-level false s =
      let p = switch_gpio ralink pins.spi_mosi in
      let c = switch_gpio ralink pins.spi_sck in
      let s1 = (driver.ioctl s n (ralink.clear p.group) p.value).state in
      let s2 = (driver.ioctl s1 n (ralink.set c.group) c.value).state in
      ap (λ zero_read. if zero_read then false else true)
        (looped.miso_read s2 ∙ ap not (looped.clock_set s1 ∙ looped.data_clear s))

  exchange-levels : (bs : List Bool) (s : S) → (exchange ralink driver (some n) pins bs s).0 ≡ bs
  unfolding exchange
  exchange-levels [] s = refl
  exchange-levels (b ∷ bs) s =
      let round = shift_bit ralink driver (some n) pins b s in
      ap (λ l. l ∷ (exchange ralink driver (some n) pins bs round.1).0) (shift_bit-level b s)
      ∙ ap (λ ls. b ∷ ls) (exchange-levels bs round.1)

  -- On looped wires with 9 rounds of fuel, spi_send_receive returns the byte that it sends.
  pub spi_send_receive-looped :
      (x : ℕ) (s : S)
      → x < 256
      → (after : S) × (spi_send_receive ralink driver (some n) pins 9 x s ≡ some (x, after))
  spi_send_receive-looped x s byte =
      let after =
        rest_low ralink driver (some n) pins
          (exchange ralink driver (some n) pins (bits 8 x) s).1 in
      (
        after,
        spi_send_receive-exchange ralink driver (some n) pins x s byte
            ∙ ap (λ v. some (v, after))
                (ap (from_bits 0) (exchange-levels (bits 8 x) s) ∙ bits-from_bits x byte),
      )
