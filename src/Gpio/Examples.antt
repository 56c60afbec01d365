-- ===== src/Gpio/Examples.antt =====
-- Runs of the GPIO code, and its theorems at a concrete driver.
use c_modules.Base.{
  not, ℕ, ◌+◌, ◌≡◌, refl, Bool, true, false, ◌&&◌, none, some, [], ◌++◌, ◌==◌, if◌then◌else◌, arith,
  bit_and,
}
use c_modules.Gpio.Requests.{
  Group, gpio2300, gpio3924, gpio7140, gpio72, RalinkGpio, Driver, switch_gpio, shifted,
}
use c_modules.Gpio.Bus.{mode0_pins, gpio_open_dev, spi_send_receive}
use c_modules.Gpio.Bus.Exchange.{bits, from_bits}
use c_modules.Gpio.Bus.Clocking.{clocked_bits, lower, spi_send_receive-clocked_bits}
use c_modules.Gpio.Bus.Loopback.{IsLooped, spi_send_receive-looped}
use c_modules.Gpio.Bus.Opening.{
  recorder, until_refused, directions, levels, gpio_open_dev-until_refused,
}

abbrev index : Group → ℕ
index gpio2300 = 0
index gpio3924 = 1
index gpio7140 = 2
index gpio72 = 3

abbrev codes_of : RalinkGpio
codes_of = record {
  set_dir_in = λ g. 10 + index g;
  set_dir_out = λ g. 20 + index g;
  read = λ g. 30 + index g;
  write = λ g. 40 + index g;
  set = λ g. 50 + index g;
  clear = λ g. 60 + index g;
  wide_shift = λ n. 0;
}

-- A driver whose state is the level of pin 54, which is wired to pin 57.
abbrev wired : Driver Bool
wired = record {
  open_device = λ s. (some 3, s);
  close_device = λ s fd. record { state = s; failed = false; value = 0 };
  ioctl = λ s fd req arg. record {
    state =
        if (req == 52) && (arg == 0x4000)
        then true
        else (if (req == 62) && (arg == 0x4000) then false else s);
    failed = false;
    value = arg;
  };
  ioctl_pointer =
      λ s fd req value. record { state = s; failed = false; value = if s then 0x20000 else 0 };
}

wired-IsLooped : IsLooped codes_of wired 3 mode0_pins
unfolding switch_gpio shifted
wired-IsLooped = record {
  level = λ s. s;
  data_set = λ s. refl;
  data_clear = λ s. refl;
  clock_set = λ s. refl;
  miso_read = λ s. elim s as (λ t. (bit_and 0x20000 (if t then 0x20000 else 0) == 0) ≡ not t) [
    | true ↦ refl
    | false ↦ refl
  ];
}

spi_send_receive-looped_example :
    (after : Bool) × (spi_send_receive codes_of wired (some 3) mode0_pins 9 0xA5 false
      ≡ some (0xA5, after))
spi_send_receive-looped_example =
    spi_send_receive-looped codes_of wired 3 mode0_pins wired-IsLooped 0xA5 false (omega arith)

spi_send_receive-clocked_bits_example :
    spi_send_receive codes_of wired (some 3) mode0_pins 9 0xA5 false
    ≡ some (
      from_bits 0 (clocked_bits codes_of wired 3 (bits 8 0xA5) false).0,
      lower codes_of wired 3 0x4000
          (lower codes_of wired 3 0x10000 (clocked_bits codes_of wired 3 (bits 8 0xA5) false).1),
    )
spi_send_receive-clocked_bits_example =
    spi_send_receive-clocked_bits codes_of wired 3 0xA5 false (omega arith)

-- The third direction is refused: the requests end there.
abbrev refuse_csn : ℕ → ℕ → Bool
refuse_csn req arg = arg == 0x8000

gpio_open_dev-until_refused_example :
    gpio_open_dev codes_of (recorder 3 refuse_csn) 0 mode0_pins [] ≡ (
      let (done, all) = until_refused refuse_csn (directions codes_of) in
      record {
        result = if all then some 3 else none;
        pins = mode0_pins;
        state = if all then done ++ levels codes_of else done;
      })
gpio_open_dev-until_refused_example = gpio_open_dev-until_refused codes_of 3 refuse_csn mode0_pins
