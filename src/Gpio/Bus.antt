-- ===== src/Gpio/Bus.antt =====
-- The bus of gpio-spi/spi_gpio.c: gpio_open_dev and spi_send_receive.
pub mod Exchange
pub mod Clocking
pub mod Loopback
pub mod Opening
use c_modules.Base.{
  ℕ, zero, suc, ◌+◌, ◌-◌, ◌*◌, ◌/◌, Bool, true, false, not, Option, none, some, ◌==◌, if◌then◌else◌,
  bit_and, bit_or,
}
use c_modules.Gpio.Requests.{
  Group, Direction, gpio_in, gpio_out, RalinkGpio, Answer, Driver, PinOf, switch_gpio, gpio_set_dir,
  set_gpio_value, get_gpio_value,
}

-- The globals spi_sck, spi_mosi, spi_miso and spi_csn.
pub record SpiPins : Type 0 where
  pub spi_sck : ℕ
  pub spi_mosi : ℕ
  pub spi_miso : ℕ
  pub spi_csn : ℕ

-- What gpio_open_dev leaves: its result, `none` for -1, the globals and the driver's state.
pub record Opened (S : Type 0) : Type 0 where
  pub result : Option ℕ
  pub pins : SpiPins
  pub state : S

-- The pins of mode 0.
abbrev pub mode0_pins : SpiPins
mode0_pins = record { spi_sck = 56; spi_mosi = 54; spi_miso = 57; spi_csn = 55 }

module _ {S : Type 0} (ralink : RalinkGpio) (driver : Driver S) where
  unfoldable pub set_direction : Option ℕ → (pin : ℕ) → Direction → S → Answer S
  unfolding gpio_set_dir switch_gpio
  set_direction fd pin dir s =
      let p = switch_gpio ralink pin in gpio_set_dir ralink driver fd p.group dir p.value s

  -- The levels after the directions are set.
  unfoldable pub set_low : Option ℕ → SpiPins → S → S
  unfolding set_gpio_value
  set_low fd pins s =
      let s = set_gpio_value ralink driver fd pins.spi_sck 0 s in
      let s = set_gpio_value ralink driver fd pins.spi_csn 0 s in
      set_gpio_value ralink driver fd pins.spi_mosi 0 s

  -- The four requests for directions, each with its early return; then the levels.
  unfoldable pub configure : Option ℕ → SpiPins → S → Opened S
  unfolding set_direction set_low
  configure fd pins s =
      let a = set_direction fd pins.spi_miso gpio_in s in
      let b = set_direction fd pins.spi_mosi gpio_out a.state in
      let c = set_direction fd pins.spi_csn gpio_out b.state in
      let d = set_direction fd pins.spi_sck gpio_out c.state in
      if a.failed
      then (record { result = none; pins = pins; state = a.state })
      else (if b.failed
          then (record { result = none; pins = pins; state = b.state })
          else (if c.failed
              then (record { result = none; pins = pins; state = c.state })
              else (if d.failed
                  then (record { result = none; pins = pins; state = d.state })
                  else (record { result = fd; pins = pins; state = set_low fd pins d.state }))))

  -- gpio_open_dev
  unfoldable pub gpio_open_dev : (mode : ℕ) → SpiPins → S → Opened S
  unfolding configure
  gpio_open_dev mode pins s =
      let (fd, s) = driver.open_device s in
      elim fd [
        | none ↦ record { result = none; pins = pins; state = s }
        | some n ↦
            if mode == 0
            then configure (some n) mode0_pins s
            else (record { result = some n; pins = pins; state = s })
      ]

  module _ (fd : Option ℕ) (pins : SpiPins) where
    -- One round of spi_send_receive: put the bit on mosi, raise the clock, sample, lower the clock.
    -- The waits between the requests have no part in the model.
    unfoldable pub shift_bit : (sent : Bool) → S → Bool × S
    unfolding set_gpio_value get_gpio_value
    shift_bit sent s =
        let s = set_gpio_value ralink driver fd pins.spi_mosi (if sent then 1 else 0) s in
        let s = set_gpio_value ralink driver fd pins.spi_sck 1 s in
        let (level, s) = get_gpio_value ralink driver fd pins.spi_miso s in
        (level, set_gpio_value ralink driver fd pins.spi_sck 0 s)

    -- `for (bit = 0x80; bit; bit >>= 1)`; `none` means that the fuel ran out.
    unfoldable pub spi_loop : ℕ → (bit b_data in_byte : ℕ) → S → Option (ℕ × S)
    unfolding shift_bit
    spi_loop zero bit b_data in_byte s = none
    spi_loop (suc fuel) bit b_data in_byte s =
        let (level, next) = shift_bit (not (bit_and b_data bit == 0)) s in
        let rest =
          spi_loop fuel (bit / 2) b_data (if level then bit_or in_byte bit else in_byte) next in
        if bit == 0 then some (in_byte, s) else rest

    -- What follows the loop.
    unfoldable pub rest_low : S → S
    unfolding set_gpio_value
    rest_low s =
        set_gpio_value ralink driver fd pins.spi_mosi 0
          (set_gpio_value ralink driver fd pins.spi_sck 0 s)

    unfoldable pub after_loop : Option (ℕ × S) → Option (ℕ × S)
    after_loop none = none
    after_loop (some (in_byte, s)) = some (in_byte, rest_low s)

    -- spi_send_receive
    unfoldable pub spi_send_receive : ℕ → (b_data : ℕ) → S → Option (ℕ × S)
    spi_send_receive fuel b_data s = after_loop (spi_loop fuel 0x80 b_data 0 s)
