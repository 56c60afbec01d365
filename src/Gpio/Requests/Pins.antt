-- ===== src/Gpio/Requests/Pins.antt =====
-- The pins that switch_gpio of gpio-spi/spi_gpio.c tells apart.
use c_modules.Base.{ℕ, ◌+◌, ◌-◌, ◌^◌, ◌<◌, ◌≡◌, inl, inr, arith, Bool-cases, leb}
use c_modules.Gpio.Requests.{Group, RalinkGpio, switch_gpio, shifted}

-- The first pin of a group.
unfoldable pub first_pin : Group → ℕ
first_pin Group.gpio2300 = 0
first_pin Group.gpio3924 = 24
first_pin Group.gpio7140 = 40
first_pin Group.gpio72 = 72

-- For the pins below 72, switch_gpio delivers the group that the pin stands in, and one bit: the
-- pin's place in the group.
pub switch_gpio-first_pin :
    (ralink : RalinkGpio) (pin : ℕ)
    → pin < 72
    → (k : ℕ) × (k < 32)
      × ((switch_gpio ralink pin).value ≡ 2 ^ k)
      × (first_pin (switch_gpio ralink pin).group + k ≡ pin)
unfolding switch_gpio shifted first_pin
switch_gpio-first_pin ralink pin lt = elim (Bool-cases (leb pin 23)) [
  | inl low ↦ (pin, ground arith, ground arith, ground arith)
  | inr high ↦ elim (Bool-cases (leb pin 39)) [
    | inl middle ↦ (pin - 24, ground arith, ground arith, ground arith)
    | inr top ↦ (pin - 40, ground arith, ground arith, ground arith)
  ]
]
