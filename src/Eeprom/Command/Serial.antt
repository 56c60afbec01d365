-- ===== src/Eeprom/Command/Serial.antt =====
-- The command `write_serial` of ftdi-eeprom/eeprom.c, from the arguments to the image on the device.
use c_modules.Base.{
  take, ◌⊎◌, ℕ, zero, suc, ◌%◌, ◌<◌, ◌≡◌, ◌≢◌, refl, ap, true, false, some, List, [], ◌∷◌, Memory,
  codes, strlen, strlen-length, get_or, length, IsCString, arith, inl, inr,
}
use c_modules.Eeprom.Defs.{FtdiHeader, FtdiEeprom}
use c_modules.Eeprom.Build.{built, check, ftdi_232h_eeprom_build}
use c_modules.Eeprom.Decode.{decoded, ftdi_66eeprom_decode}
use c_modules.Eeprom.RoundTrip.{IsEncodable, read_back}
use c_modules.Eeprom.Images.{IsWritable, characters, build_232h-decode}
use c_modules.Eeprom.Command.{
  Environment, Exit, ftdi_write_eeprom, finish, main, run_command, run_write_serial, same_text,
  serial_ok, is_serial_char, serial_eeprom, written,
}

take-all : (n : ℕ) (s : List ℕ) → length s ≡ n → take n s ≡ s
take-all zero [] h = refl
take-all zero (c ∷ cs) h = absurd (omega arith)
take-all (suc n) [] h = refl
take-all (suc n) (c ∷ cs) h = ap (λ t. c ∷ t) (take-all n cs (omega arith))

-- Accepted characters are not NUL.
serial_ok-IsCString : (n : ℕ) (s : List ℕ) → length s ≡ n → serial_ok n s ≡ true → IsCString s
unfolding serial_ok
serial_ok-IsCString zero [] h ok = tt
serial_ok-IsCString zero (c ∷ cs) h ok = absurd (omega arith)
serial_ok-IsCString (suc n) [] h ok = tt
serial_ok-IsCString (suc n) (c ∷ cs) h ok =
    (ground arith, serial_ok-IsCString n cs (omega arith) (ground arith))

module _ (ftdi : FtdiHeader) (fresh : FtdiEeprom) (s : List ℕ) (twelve : length s ≡ 12)
    (ok : serial_ok 12 s ≡ true) (is_232h : ftdi.type_232h ≡ 6)
    (not_2232c : ftdi.type_2232c ≢ 6) where
  serial_eeprom-IsWritable : IsWritable (serial_eeprom fresh s)
  unfolding serial_eeprom
  serial_eeprom-IsWritable = record {
    size = refl;
    man_ok = omega arith;
    prod_ok = omega arith;
    ser_ok = rw (take-all 12 s twelve) (serial_ok-IsCString 12 s twelve ok);
  }

  serial_eeprom-IsEncodable : IsEncodable ftdi (serial_eeprom fresh s)
  unfolding serial_eeprom check
  serial_eeprom-IsEncodable = record {
    accepted = ground arith;
    vendor_id = omega arith;
    product_id = omega arith;
    self_powered = omega arith;
    remote_wakeup = omega arith;
    chip_type = (ground arith, ground arith);
    in_is_isochronous = omega arith;
    out_is_isochronous = omega arith;
    suspend_pull_downs = omega arith;
    use_serial = omega arith;
    change_usb_version = omega arith;
    usb_version = omega arith;
    max_power = omega arith;
    invert = omega arith;
  }

  forty : characters (serial_eeprom fresh s) ≡ 40
  unfolding serial_eeprom
  forty = rw (take-all 12 s twelve) (omega arith)

  serial_back : (read_back ftdi (serial_eeprom fresh s)).serial ≡ some s
  unfolding serial_eeprom read_back
  serial_back = ap some (take-all 12 s twelve)

  -- The run up to the builder.
  serial_run :
      (env : Environment) (left : ℕ) (image : Memory)
      → env.init_result ≡ 0
      → env.open_result ≡ 0
      → ftdi_232h_eeprom_build ftdi (some (serial_eeprom env.fresh s)) (λ _. 0) ≡ built left image
      → main ftdi env (codes "write_serial" ∷ s ∷ [])
        ≡ finish (ftdi_write_eeprom image ∷ []) Exit.success
  unfolding main run_command run_write_serial same_text written
  serial_run env left image init open_ok image_is =
      let len : strlen s % 256 ≡ 12 =
        omega (arith, strlen-length s (serial_ok-IsCString 12 s twelve ok)) in
      rw (init, open_ok, len, ok, image_is) refl

-- A bad character among the first `n` fails the test.
serial_ok-bad :
    (n i : ℕ) (s : List ℕ) → i < n → is_serial_char (get_or s i 0) ≡ false → serial_ok n s ≡ false
unfolding serial_ok
serial_ok-bad zero i s lt bad = absurd (omega arith)
serial_ok-bad (suc n) i [] lt bad = refl
serial_ok-bad (suc n) zero (c ∷ cs) lt bad = ground arith
serial_ok-bad (suc n) (suc i) (c ∷ cs) lt bad =
    ground (arith, serial_ok-bad n i cs (omega arith) bad)

module _ (ftdi : FtdiHeader) (env : Environment) (s : List ℕ) (init : env.init_result ≡ 0)
    (open_ok : env.open_result ≡ 0) where
  -- Given a device that opens, 12 characters that the test accepts and the chip type 6 for the 232H
  -- only, `write_serial` writes one image, and ftdi_66eeprom_decode reads from it the default 232H
  -- structure with these characters as its serial number, but for size 0, a USB version of 0 unless
  -- it is enabled, and as high_current the bits of HIGH_CURRENT_DRIVE in the low byte of the vendor
  -- id.
  pub write_serial-decode :
      (old : FtdiEeprom)
      → length s ≡ 12
      → serial_ok 12 s ≡ true
      → ftdi.type_232h ≡ 6
      → ftdi.type_2232c ≢ 6
      → (image : Memory) × (main ftdi env (codes "write_serial" ∷ s ∷ [])
          ≡ finish (ftdi_write_eeprom image ∷ []) Exit.success)
        × (ftdi_66eeprom_decode ftdi (some old) image 256
            ≡ decoded (read_back ftdi (serial_eeprom env.fresh s)))
        × ((read_back ftdi (serial_eeprom env.fresh s)).serial ≡ some s)
  write_serial-decode old twelve ok is_232h not_2232c =
      let e = serial_eeprom env.fresh s in
      let w =
        build_232h-decode ftdi e old (λ _. 0)
          (serial_eeprom-IsEncodable ftdi env.fresh s twelve ok is_232h not_2232c)
          (serial_eeprom-IsWritable ftdi env.fresh s twelve ok is_232h not_2232c)
          (omega (arith, forty ftdi env.fresh s twelve ok is_232h not_2232c)) in
      (
        w.0,
        serial_run ftdi env.fresh s twelve ok is_232h not_2232c env _ w.0 init open_ok w.1,
        w.2,
        serial_back ftdi env.fresh s twelve ok is_232h not_2232c,
      )

  -- A serial number with a character that the test does not accept among its first 12, or with a
  -- length whose low byte is not 12, is answered by the help text: nothing is written.
  pub write_serial_refused :
      (i : ℕ)
      → ((i < 12) × (is_serial_char (get_or s i 0) ≡ false)) ⊎ (strlen s % 256 ≢ 12)
      → main ftdi env (codes "write_serial" ∷ s ∷ []) ≡ finish [] Exit.help
  unfolding main run_command run_write_serial same_text
  write_serial_refused i (inl (lt, bad)) =
      rw (init, open_ok) (ground (arith, serial_ok-bad 12 i s lt bad))
  write_serial_refused i (inr len) = rw (init, open_ok) (ground arith)

  -- The help text offers the digits a to f, but a serial number with a lower-case f is refused.
  write_serial_f :
      (i : ℕ)
      → i < 12
      → get_or s i 0 ≡ b'f'
      → main ftdi env (codes "write_serial" ∷ s ∷ []) ≡ finish [] Exit.help
  unfolding is_serial_char
  write_serial_f i lt f = write_serial_refused i (inl (lt, rw f refl))
