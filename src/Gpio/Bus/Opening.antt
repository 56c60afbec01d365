-- ===== src/Gpio/Bus/Opening.antt =====
-- The requests that gpio_open_dev of gpio-spi/spi_gpio.c makes, seen by a driver that records them.
use c_modules.Base.{
  ℕ, ◌≡◌, refl, Bool, true, false, none, some, List, [], ◌∷◌, ◌++◌, if◌then◌else◌, Bool-cases, inl,
  inr,
}
use c_modules.Gpio.Requests.{
  gpio7140, RalinkGpio, Driver, switch_gpio, shifted, gpio_set_dir, set_gpio_value, gpio_set_int,
  gpio_clear_int, request,
}
use c_modules.Gpio.Bus.{SpiPins, mode0_pins, gpio_open_dev, configure, set_direction, set_low}

-- A request code with its number.
pub record Request : Type 0 where
  pub code : ℕ
  pub arg : ℕ

-- A driver that opens as `n`, records every request, the latest last, and fails those that `refuse`
-- names.
abbrev pub recorder : ℕ → (ℕ → ℕ → Bool) → Driver (List Request)
recorder n refuse = record {
  open_device = λ s. (some n, s);
  close_device = λ s fd. record { state = s; failed = false; value = 0 };
  ioctl = λ s fd req arg. record {
    state = s ++ (record { code = req; arg = arg } ∷ []);
    failed = refuse req arg;
    value = arg;
  };
  ioctl_pointer = λ s fd req value. record { state = s; failed = false; value = value };
}

-- The requests up to and with the first refused one, and whether none was refused.
unfoldable pub until_refused : (ℕ → ℕ → Bool) → List Request → List Request × Bool
until_refused refuse [] = ([], true)
until_refused refuse (r ∷ rs) =
    let (done, all) = until_refused refuse rs in
    if refuse r.code r.arg then (r ∷ [], false) else (r ∷ done, all)

-- The directions: miso in; mosi, csn and sck out.
abbrev pub directions : RalinkGpio → List Request
directions ralink =
    record { code = ralink.set_dir_in gpio7140; arg = 0x20000 }
    ∷ record { code = ralink.set_dir_out gpio7140; arg = 0x4000 }
    ∷ record { code = ralink.set_dir_out gpio7140; arg = 0x8000 }
    ∷ record { code = ralink.set_dir_out gpio7140; arg = 0x10000 }
    ∷ []

-- The levels: sck, csn and mosi low.
abbrev pub levels : RalinkGpio → List Request
levels ralink =
    record { code = ralink.clear gpio7140; arg = 0x10000 }
    ∷ record { code = ralink.clear gpio7140; arg = 0x8000 }
    ∷ record { code = ralink.clear gpio7140; arg = 0x4000 }
    ∷ []

-- On a device that opens, gpio_open_dev in mode 0 sets the four directions in order and stops at the
-- first that is refused, with -1 and the device still open; if none is refused it sets the three
-- levels and returns the descriptor.
pub gpio_open_dev-until_refused :
    (ralink : RalinkGpio) (n : ℕ) (refuse : ℕ → ℕ → Bool) (pins : SpiPins)
    → gpio_open_dev ralink (recorder n refuse) 0 pins [] ≡ (
        let (done, all) = until_refused refuse (directions ralink) in
        record {
          result = if all then some n else none;
          pins = mode0_pins;
          state = if all then done ++ levels ralink else done;
        })
unfolding gpio_open_dev configure set_direction set_low gpio_set_dir set_gpio_value gpio_set_int
    gpio_clear_int request switch_gpio shifted until_refused
gpio_open_dev-until_refused ralink n refuse pins =
    elim (Bool-cases (refuse (ralink.set_dir_in gpio7140) 0x20000)) [
      | inl a ↦ rw a refl
      | inr a ↦ elim (Bool-cases (refuse (ralink.set_dir_out gpio7140) 0x4000)) [
        | inl b ↦ rw (a, b) refl
        | inr b ↦ elim (Bool-cases (refuse (ralink.set_dir_out gpio7140) 0x8000)) [
          | inl c ↦ rw (a, b, c) refl
          | inr c ↦ elim (Bool-cases (refuse (ralink.set_dir_out gpio7140) 0x10000)) [
            | inl d ↦ rw (a, b, c, d) refl
            | inr d ↦ rw (a, b, c, d) refl
          ]
        ]
      ]
    ]
