-- ===== src/DriverTest/Examples.antt =====
-- Two runs of driver-test/main.c: the text "hi" is written through one device and read through the other.
use c_modules.Base.{ℕ, ◌+◌, ◌-◌, ◌/◌, ◌%◌, ◌≡◌, refl, arith, false, some, [], ◌∷◌, ◌++◌, codes}
use c_modules.Hello.Ioctl.{HelloCodes, Pipe}
use c_modules.Hello.Files.Runs.{IsCoded}
use c_modules.DriverTest.{
  TestEnvironment, driver_test, test_ended, wrote, got, read_len, read_bytes, print_string,
}
use c_modules.DriverTest.Message.{driver_test-message}

-- The codes of Linux.
abbrev header : HelloCodes
header = record {
  ioc_type = λ req. req / 256 % 256;
  ioc_nr = λ req. req % 256;
  hello_write = 0xC0186101;
  hello_read = 0xC0186102;
}

header-IsCoded : IsCoded header
header-IsCoded = record {
  write_type = refl;
  write_nr = refl;
  read_type = refl;
  read_nr = refl;
  apart = λ e. absurd (omega (arith, e));
}

-- Memory that holds `fill` everywhere.
abbrev environment : (minor fill : ℕ) → TestEnvironment
environment minor fill = record {
  opened = some minor;
  block = 4096;
  argument = 7;
  unset = 0;
  memory = λ q. fill;
  reached = λ address n. n;
}

abbrev free_pipe : Pipe
free_pipe = record { bytes = λ q. 0; len = 0; locked = false }

driver_test-message_example :
    (between after : Pipe) × (driver_test header
        (environment 0 0)
        (codes "w" ∷ codes "/dev/hello0" ∷ codes "hi" ∷ [])
        free_pipe
      ≡ test_ended (wrote 2) between)
    × (driver_test header (environment 1 0) (codes "r" ∷ codes "/dev/hello1" ∷ []) between
        ≡ test_ended
            (got read_len
              (print_string
                (codes "hi" ++ read_bytes (environment 1 0).memory (4096 + 2) (read_len + 1 - 2)))
              2)
            after)
    × (after.locked ≡ false)
driver_test-message_example =
    driver_test-message header (environment 0 0) (environment 1 0) 0 1 (codes "/dev/hello0")
      (codes "/dev/hello1") (codes "hi") free_pipe header-IsCoded refl (omega arith)
      (record { opened = refl; known = omega arith; reaches = refl })
      (record { opened = refl; known = omega arith; reaches = refl })
