-- ===== src/Gpio/Bus/Clocking.antt =====
-- The requests of spi_send_receive in gpio-spi/spi_gpio.c on the pins of mode 0, written out: mosi is
-- bit 14 of the pins 40 to 71, sck bit 16 and miso bit 17.
use c_modules.Base.{
  ℕ, ◌<◌, ◌≡◌, refl, ◌∙◌, ap, Bool, true, false, some, List, [], ◌∷◌, ◌==◌, if◌then◌else◌, bit_and,
}
use c_modules.Gpio.Requests.{
  RalinkGpio, Driver, gpio7140, switch_gpio, shifted, set_gpio_value, get_gpio_value, gpio_set_int,
  gpio_clear_int, gpio_read_int, request,
}
use c_modules.Gpio.Bus.{mode0_pins, shift_bit, rest_low, spi_send_receive}
use c_modules.Gpio.Bus.Exchange.{bits, from_bits, exchange, spi_send_receive-exchange}

module _ {S : Type 0} (ralink : RalinkGpio) (driver : Driver S) (n : ℕ) where
  abbrev pub raise : (mask : ℕ) → S → S
  raise mask s = (driver.ioctl s n (ralink.set gpio7140) mask).state

  abbrev pub lower : (mask : ℕ) → S → S
  lower mask s = (driver.ioctl s n (ralink.clear gpio7140) mask).state

  -- The bit on mosi, the clock up, the level of miso, the clock down.
  abbrev pub clocked_bit : Bool → S → Bool × S
  clocked_bit b s =
      let up = raise 0x10000 (if b then raise 0x4000 s else lower 0x4000 s) in
      let sample = driver.ioctl_pointer up n (ralink.read gpio7140) 0 in
      (if bit_and 0x20000 sample.value == 0 then false else true, lower 0x10000 sample.state)

  unfoldable pub clocked_bits : List Bool → S → List Bool × S
  clocked_bits [] s = ([], s)
  clocked_bits (b ∷ bs) s =
      let (level, s) = clocked_bit b s in let (levels, s) = clocked_bits bs s in (level ∷ levels, s)

  shift_bit-clocked_bit :
      (b : Bool) (s : S) → shift_bit ralink driver (some n) mode0_pins b s ≡ clocked_bit b s
  unfolding shift_bit set_gpio_value get_gpio_value gpio_set_int gpio_clear_int gpio_read_int
      request switch_gpio shifted
  shift_bit-clocked_bit true s = refl
  shift_bit-clocked_bit false s = refl

  exchange-clocked_bits :
      (bs : List Bool) (s : S) → exchange ralink driver (some n) mode0_pins bs s ≡ clocked_bits bs s
  unfolding exchange clocked_bits
  exchange-clocked_bits [] s = refl
  exchange-clocked_bits (b ∷ bs) s =
      ap
        (λ round. (
          round.0 ∷ (exchange ralink driver (some n) mode0_pins bs round.1).0,
          (exchange ralink driver (some n) mode0_pins bs round.1).1,
        ))
        (shift_bit-clocked_bit b s)
      ∙ ap (λ more. ((clocked_bit b s).0 ∷ more.0, more.1))
          (exchange-clocked_bits bs (clocked_bit b s).1)

  -- With 9 rounds of fuel, for a byte on the pins of mode 0, spi_send_receive ends. For each of the 8
  -- bits, the highest first, it sets or clears mosi, sets the clock, reads the pins and clears the
  -- clock; then it clears the clock and mosi. It returns the number that the sampled levels of miso
  -- make up, the first the highest.
  pub spi_send_receive-clocked_bits :
      (x : ℕ) (s : S)
      → x < 256
      → spi_send_receive ralink driver (some n) mode0_pins 9 x s
        ≡ some (
          from_bits 0 (clocked_bits (bits 8 x) s).0,
          lower 0x4000 (lower 0x10000 (clocked_bits (bits 8 x) s).1),
        )
  unfolding rest_low set_gpio_value gpio_clear_int request switch_gpio shifted
  spi_send_receive-clocked_bits x s byte =
      spi_send_receive-exchange ralink driver (some n) mode0_pins x s byte
      ∙ ap (λ more. some (from_bits 0 more.0, lower 0x4000 (lower 0x10000 more.1)))
          (exchange-clocked_bits (bits 8 x) s)
