-- ===== src/Gpio/Requests.antt =====
-- The requests of gpio-spi/spi_gpio.c: switch_gpio and the functions that choose a request code and
-- call ioctl.
pub mod Pins
use c_modules.Base.{
  ◌&&◌, ℕ, ◌+◌, ◌-◌, ◌^◌, ◌≡◌, Bool, true, false, Option, none, some, ltb, leb, ◌==◌, if◌then◌else◌,
  bit_and,
}

-- The groups of pins.
pub data Group : Type 0 where
  gpio2300 gpio3924 gpio7140 gpio72 : Group

pub data Direction : Type 0 where
  gpio_in gpio_out : Direction

-- The request codes of ralink_gpio.h, which is not in the repository, by the group that they serve,
-- and what the target computes for `1 << n` with an `n` of 32 or more, which C leaves undefined.
pub record RalinkGpio : Type 0 where
  pub set_dir_in : Group → ℕ
  pub set_dir_out : Group → ℕ
  pub read : Group → ℕ
  pub write : Group → ℕ
  pub set : Group → ℕ
  pub clear : Group → ℕ
  pub wide_shift : ℕ → ℕ

-- What a call of ioctl leaves: the driver's state, whether it failed, and for a pointer argument the
-- value that it points to.
pub record Answer (S : Type 0) : Type 0 where
  pub state : S
  pub failed : Bool
  pub value : ℕ

-- The kernel's driver behind `/dev/gpio`: `open`, `close`, `ioctl` with a number, and with a pointer to a number. A
-- file descriptor of `none` is a negative one.
pub record Driver (S : Type 0) : Type 0 where
  pub open_device : S → Option ℕ × S
  pub close_device : S → (fd : Option ℕ) → Answer S
  pub ioctl : S → (fd req arg : ℕ) → Answer S
  pub ioctl_pointer : S → (fd req value : ℕ) → Answer S

-- `1 << n` as a 32-bit pattern.
unfoldable pub shifted : RalinkGpio → ℕ → ℕ
shifted ralink n = if ltb n 32 then 2 ^ n else ralink.wide_shift n

-- What switch_gpio delivers: the group and `*value`.
pub record PinOf : Type 0 where
  pub group : Group
  pub value : ℕ

-- switch_gpio, for a pin that is not negative.
unfoldable pub switch_gpio : RalinkGpio → ℕ → PinOf
unfolding shifted
switch_gpio ralink pin =
    if leb pin 23
    then (record { group = gpio2300; value = shifted ralink (pin - 0) })
    else (if leb 24 pin && leb pin 39
        then (record { group = gpio3924; value = shifted ralink (pin - 24) })
        else (record { group = gpio7140; value = shifted ralink (pin - 40) }))

module _ {S : Type 0} (ralink : RalinkGpio) (driver : Driver S) where
  -- A request with a number: a negative descriptor is refused before the call.
  unfoldable pub request : (fd : Option ℕ) → (req arg : ℕ) → S → Answer S
  request none req arg s = record { state = s; failed = true; value = arg }
  request (some fd) req arg s = driver.ioctl s fd req arg

  -- gpio_close_dev
  unfoldable pub gpio_close_dev : (fd : Option ℕ) → S → Answer S
  gpio_close_dev fd s = driver.close_device s fd

  -- gpio_set_dir; `true` in `failed` is a return of -1.
  unfoldable pub gpio_set_dir : (fd : Option ℕ) → Group → Direction → (gpio : ℕ) → S → Answer S
  unfolding request
  gpio_set_dir fd r gpio_in gpio s = request fd (ralink.set_dir_in r) gpio s
  gpio_set_dir fd r gpio_out gpio s = request fd (ralink.set_dir_out r) gpio s

  -- gpio_read_int: `*value` is 0 before the call.
  unfoldable pub gpio_read_int : (fd : Option ℕ) → Group → S → Answer S
  gpio_read_int none r s = record { state = s; failed = true; value = 0 }
  gpio_read_int (some fd) r s = driver.ioctl_pointer s fd (ralink.read r) 0

  -- gpio_write_int
  unfoldable pub gpio_write_int : (fd : Option ℕ) → Group → (value : ℕ) → S → Answer S
  unfolding request
  gpio_write_int fd r value s = request fd (ralink.write r) value s

  -- gpio_set_int
  unfoldable pub gpio_set_int : (fd : Option ℕ) → Group → (value : ℕ) → S → Answer S
  unfolding request
  gpio_set_int fd r value s = request fd (ralink.set r) value s

  -- gpio_clear_int
  unfoldable pub gpio_clear_int : (fd : Option ℕ) → Group → (value : ℕ) → S → Answer S
  unfolding request
  gpio_clear_int fd r value s = request fd (ralink.clear r) value s

  -- setGpioValue: an error is printed, and the caller does not learn of it.
  unfoldable pub set_gpio_value : (fd : Option ℕ) → (pin active : ℕ) → S → S
  unfolding switch_gpio gpio_set_int gpio_clear_int
  set_gpio_value fd pin active s =
      let p = switch_gpio ralink pin in
      if active == 1
      then (gpio_set_int fd p.group p.value s).state
      else (gpio_clear_int fd p.group p.value s).state

  -- getGpioValue: the level and the driver's state.
  unfoldable pub get_gpio_value : (fd : Option ℕ) → (pin : ℕ) → S → Bool × S
  unfolding switch_gpio gpio_read_int
  get_gpio_value fd pin s =
      let p = switch_gpio ralink pin in
      let answer = gpio_read_int fd p.group s in
      (if bit_and p.value answer.value == 0 then false else true, answer.state)
