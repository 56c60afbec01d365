-- ===== src/Eeprom/Examples.antt =====
-- Runs of the EEPROM code, and its theorems at concrete boards.
use c_modules.Base.{
  ℕ, ◌+◌, ◌-◌, ◌*◌, ◌≡◌, ◌≢◌, refl, none, some, List, [], ◌∷◌, Memory, codes, write, inl, inr,
  arith, true,
}
use c_modules.Eeprom.Defs.{string_size, FtdiHeader, FtdiEeprom}
use c_modules.Eeprom.Build.{diverges, check, ftdi_232h_eeprom_build}
use c_modules.Eeprom.Build2232h.{ftdi_2232h_eeprom_build}
use c_modules.Eeprom.Strings.{read_chars}
use c_modules.Eeprom.Decode.{
  decode_fields, decode_string, verify, decoded, fault, ftdi_66eeprom_decode,
}
use c_modules.Eeprom.Decode.Detects.{decode_detects}
use c_modules.Eeprom.Decode.Faults.{decode_faults}
use c_modules.Eeprom.Checksum.{checksum, checksum_loop, checksum_step, word_at}
use c_modules.Eeprom.RoundTrip.{IsEncodable, read_back}
use c_modules.Eeprom.Images.{IsWritable, Writes, characters, build_232h-decode, build_2232h-decode}
use c_modules.Eeprom.Returns.{Returns, build-Returns, build-diverges}
use c_modules.Eeprom.Command.{
  run_command, same_text, Environment, Exit, ftdi_write_eeprom, finish, main, serial_eeprom,
  serial_ok, run_write_serial,
}
use c_modules.Eeprom.Command.Serial.{write_serial-decode}

-- The values of libftdi's ftdi.h.
abbrev libftdi : FtdiHeader
libftdi = record {
  type_am = 0;
  type_bm = 1;
  type_2232c = 2;
  type_r = 3;
  type_2232h = 4;
  type_4232h = 5;
  type_232h = 6;
  high_current_drive = 0x10;
}

abbrev board_of : (chip size : ℕ) → (serial : List ℕ) → FtdiEeprom
board_of chip size serial = record {
  vendor_id = 0x403;
  product_id = 0x6014;
  self_powered = 1;
  remote_wakeup = 0;
  chip_type = chip;
  in_is_isochronous = 0;
  out_is_isochronous = 1;
  suspend_pull_downs = 0;
  use_serial = 1;
  change_usb_version = 1;
  usb_version = 0x200;
  max_power = 50;
  high_current = 0;
  invert = 0;
  size = size;
  cbus_function = record { cbus0 = 0; cbus1 = 0; cbus2 = 0; cbus3 = 0; cbus4 = 0 };
  manufacturer = some (codes "FTDI");
  product = none;
  serial = some serial;
}

abbrev board : FtdiEeprom
board = board_of 6 256 (codes "00A1")

abbrev blank : Memory
blank = λ _. 0

board-IsEncodable : IsEncodable libftdi board
unfolding check
board-IsEncodable = record {
  accepted = refl;
  vendor_id = omega arith;
  product_id = omega arith;
  self_powered = omega arith;
  remote_wakeup = omega arith;
  chip_type = (omega arith, inr (inr (inr (inr (inr refl)))));
  in_is_isochronous = omega arith;
  out_is_isochronous = omega arith;
  suspend_pull_downs = omega arith;
  use_serial = omega arith;
  change_usb_version = omega arith;
  usb_version = omega arith;
  max_power = omega arith;
  invert = omega arith;
}

board-IsWritable : IsWritable board
board-IsWritable = record { size = refl; man_ok = omega arith; prod_ok = tt; ser_ok = omega arith }

build_232h-decode_example :
    Writes libftdi board board blank
      (ftdi_232h_eeprom_build libftdi (some board) blank)
      (80 - 2 * characters board)
build_232h-decode_example =
    build_232h-decode libftdi board board blank board-IsEncodable board-IsWritable (omega arith)

build_2232h-decode_example :
    Writes libftdi board board blank
      (ftdi_2232h_eeprom_build libftdi (some board) blank)
      (120 - 2 * characters board)
build_2232h-decode_example =
    build_2232h-decode libftdi board board blank board-IsEncodable board-IsWritable (omega arith)

build-Returns_example :
    Returns (ftdi_232h_eeprom_build libftdi (some board) blank)
    × Returns (ftdi_2232h_eeprom_build libftdi (some board) blank)
build-Returns_example = build-Returns libftdi board blank (omega arith) (omega arith)

abbrev huge : FtdiEeprom
huge = board_of 6 1024 (codes "00A1")

build-diverges_example :
    (checksum_loop 1000 511 0 0xAAAA blank ≡ none)
    × (ftdi_232h_eeprom_build libftdi (some huge) blank ≡ diverges)
    × (ftdi_2232h_eeprom_build libftdi (some huge) blank ≡ diverges)
unfolding check
build-diverges_example =
    build-diverges libftdi huge blank 1000 blank (omega arith) refl
      (unfold string_size in omega arith)

decode_faults_example : ftdi_66eeprom_decode libftdi (some board) blank 256 ≡ fault
decode_faults_example = decode_faults libftdi board blank 256 (inl (inl (omega arith)))

-- An image with three empty strings.
abbrev plain : Memory
plain = write (write (write blank 0x0F 2) 0x11 2) 0x13 2

plain_image : checksum 127 plain ≡ some (0xD5 * 256 + 0x56)
unfolding checksum checksum_loop checksum_step word_at
plain_image = refl

abbrev image : Memory
image = write (write plain 254 0x56) 255 0xD5

abbrev damaged : Memory
damaged = write image 5 1

abbrev from_image : FtdiEeprom
from_image = decode_fields libftdi image [] [] []

image-accepted : ftdi_66eeprom_decode libftdi (some board) image 256 ≡ decoded from_image
unfolding ftdi_66eeprom_decode decode_string read_chars verify checksum checksum_loop checksum_step
    word_at
image-accepted = refl

decode_detects_example : ftdi_66eeprom_decode libftdi (some board) damaged 256 ≢ decoded from_image
decode_detects_example =
    decode_detects image damaged (λ p. ground arith) (λ p. ground arith) 5 (omega arith)
      (λ p ne. ground arith) libftdi board from_image from_image (omega arith) image-accepted

-- The command line on a device that opens.
abbrev env : Environment
env = record { init_result = 0; open_result = 0; device_image = image; fresh = board }

abbrev good_serial : List ℕ
good_serial = codes "00123456ABcd"

good_serial_ok : serial_ok 12 good_serial ≡ true
unfolding serial_ok
good_serial_ok = refl

write_serial-decode_example :
    (written_image : Memory) × (main libftdi env (codes "write_serial" ∷ good_serial ∷ [])
      ≡ finish (ftdi_write_eeprom written_image ∷ []) Exit.success)
    × (ftdi_66eeprom_decode libftdi (some board) written_image 256
        ≡ decoded (read_back libftdi (serial_eeprom board good_serial)))
    × ((read_back libftdi (serial_eeprom board good_serial)).serial ≡ some good_serial)
write_serial-decode_example =
    write_serial-decode libftdi env good_serial refl refl board refl good_serial_ok refl
      (omega arith)

-- The help text offers a lower-case f.
serial_with_f :
    main libftdi env (codes "write_serial" ∷ codes "00123456abcf" ∷ []) ≡ finish [] Exit.help
unfolding main run_command same_text run_write_serial serial_ok
serial_with_f = refl

-- A command that the program does not know ends with 0 and no help.
unknown_command : main libftdi env (codes "reed" ∷ []) ≡ finish [] Exit.success
unfolding main run_command same_text
unknown_command = refl
