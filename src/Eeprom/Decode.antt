-- ===== src/Eeprom/Decode.antt =====
-- ftdi_66eeprom_decode of ftdi-eeprom/eeprom.c. Each `malloc` is taken to succeed.
pub mod Detects
pub mod Faults
use c_modules.Base.{
  ℕ, zero, suc, ◌+◌, ◌*◌, ◌/◌, ◌%◌, bit_and, Option, none, some, List, ltb, ◌==◌, if◌then◌else◌,
  Memory,
}
use c_modules.Eeprom.Defs.{FtdiHeader, Cbus, FtdiEeprom}
use c_modules.Eeprom.Checksum.{checksum}
use c_modules.Eeprom.Strings.{read_chars}

-- `decoded` is the return of 0, and the next two are returns of -1: a NULL pointer to the structure,
-- and a wrong checksum after the structure is filled. `fault` is a read behind the buffer or a store
-- through the NULL of a missing string.
pub data Decoded : Type 0 where
  decoded : FtdiEeprom → Decoded
  null_eeprom : Decoded
  checksum_error : FtdiEeprom → Decoded
  fault diverges : Decoded

-- The `switch` on the bytes 0x06 and 0x07. A cleared structure holds 0.
unfoldable pub decode_chip : FtdiHeader → ℕ → ℕ
decode_chip ftdi value =
    if value == 0x0900
    then ftdi.type_232h
    else if value == 0x0800
    then ftdi.type_4232h
    else if value == 0x0700
    then ftdi.type_2232h
    else if value == 0x0600
    then ftdi.type_r
    else if value == 0x0400
    then ftdi.type_bm
    else if value == 0x0200
    then ftdi.type_am
    else 0

-- `if (j & bit) field = 1;` on a cleared field
abbrev pub flag : ℕ → ℕ → ℕ
flag j bit = if bit_and j bit == 0 then 0 else 1

unfoldable pub decode_cbus : FtdiHeader → ℕ → Memory → Cbus
decode_cbus ftdi chip_type buf =
    if chip_type == ftdi.type_r
    then (record {
      cbus0 = bit_and (buf 0x14) 0x0f;
      cbus1 = bit_and (buf 0x14 / 16) 0x0f;
      cbus2 = bit_and (buf 0x15) 0x0f;
      cbus3 = bit_and (buf 0x15 / 16) 0x0f;
      cbus4 = bit_and (buf 0x16) 0x0f;
    })
    else (record { cbus0 = 0; cbus1 = 0; cbus2 = 0; cbus3 = 0; cbus4 = 0 })

-- One string: its length stands at `length_at` and its offset at `offset_at`. A length below 2
-- leaves the pointer NULL, and the terminating store then goes through it.
unfoldable pub decode_string : Memory → (size length_at offset_at : ℕ) → Option (List ℕ)
decode_string buf size length_at offset_at = elim (buf length_at / 2) [
  | zero ↦ none
  | suc n ↦ read_chars buf size n (bit_and (buf offset_at) 0xff + 2)
]

-- The fields, with the strings found.
unfoldable pub decode_fields :
    FtdiHeader → Memory → (manufacturer product serial : List ℕ) → FtdiEeprom
decode_fields ftdi buf manufacturer product serial =
    let chip_type = decode_chip ftdi ((buf 0x06 + buf 0x07 * 256) % 65536) in
    let j = buf 0x0A in
    let change = flag j 0x10 in
    record {
      vendor_id = buf 0x02 + buf 0x03 * 256;
      product_id = buf 0x04 + buf 0x05 * 256;
      self_powered = flag (buf 0x08) 0x40;
      remote_wakeup = flag (buf 0x08) 0x20;
      chip_type = chip_type;
      in_is_isochronous = flag j 0x01;
      out_is_isochronous = flag j 0x02;
      suspend_pull_downs = flag j 0x04;
      use_serial = flag j 0x08;
      change_usb_version = change;
      usb_version = if change == 1 then buf 0x0C + buf 0x0D * 256 else 0;
      max_power = buf 0x09;
      high_current = bit_and (buf 0x02) ftdi.high_current_drive;
      invert = buf 0x0B;
      size = 0;
      cbus_function = decode_cbus ftdi chip_type buf;
      manufacturer = some manufacturer;
      product = some product;
      serial = some serial;
    }

-- The checksum of the first 127 words against the last two bytes.
unfoldable pub verify : Memory → FtdiEeprom → Decoded
verify buf e = elim (checksum 127 buf) [
  | none ↦ diverges
  | some c ↦ if (buf 254 + buf 255 * 256) % 65536 == c then decoded e else checksum_error e
]

-- ftdi_66eeprom_decode over a buffer of `size` bytes; `none` is a NULL pointer to the structure,
-- whose former content is cleared.
unfoldable pub ftdi_66eeprom_decode : FtdiHeader → Option FtdiEeprom → Memory → ℕ → Decoded
ftdi_66eeprom_decode ftdi none buf size = null_eeprom
ftdi_66eeprom_decode ftdi (some old) buf size =
    if ltb size 256 then fault else elim (decode_string buf size 0x0F 0x0E) [
      | none ↦ fault
      | some manufacturer ↦ elim (decode_string buf size 0x11 0x10) [
        | none ↦ fault
        | some product ↦ elim (decode_string buf size 0x13 0x12) [
          | none ↦ fault
          | some serial ↦ verify buf (decode_fields ftdi buf manufacturer product serial)
        ]
      ]
    ]
