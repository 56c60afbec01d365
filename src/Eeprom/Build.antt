-- ===== src/Eeprom/Build.antt =====
-- ftdi_232h_eeprom_build of ftdi-eeprom/eeprom.c, and the parts that ftdi_2232h_eeprom_build spells
-- the same. `output` is byte memory without an end, so that a store behind the image can be seen.
pub mod Area
pub mod Descriptor
use c_modules.Base.{
  ℕ, ◌+◌, ◌-◌, ◌*◌, ◌/◌, ◌%◌, bit_and, bit_or, Bool, not, ◌&&◌, ◌||◌, Option, none, some, List, [],
  ltb, ◌==◌, if◌then◌else◌, Memory, memset,
}
use c_modules.Eeprom.Defs.{FtdiHeader, FtdiEeprom, put, string_size}
use c_modules.Eeprom.Checksum.{checksum}
use c_modules.Eeprom.Strings.{emit_string}

-- The error returns -1 to -5.
pub data BuildError : Type 0 where
  too_large no_eeprom bad_cbus bad_invert bad_high_current : BuildError

-- `fault` is a store before the buffer (a size below 2), `diverges` the checksum loop that never
-- ends (a size of 514 or more).
pub data Built : Type 0 where
  built : ℕ → Memory → Built
  refused : BuildError → Built
  fault diverges : Built

module _ (ftdi : FtdiHeader) where
  -- One round of the loop that checks `cbus_function`.
  unfoldable pub cbus_refused : FtdiEeprom → ℕ → ℕ → Bool
  cbus_refused e f max = ltb max f || (not (f == 0) && not (e.chip_type == ftdi.type_r))

  -- The error returns before the size check.
  unfoldable pub check : FtdiEeprom → Option BuildError
  unfolding cbus_refused
  check e =
      let c = e.cbus_function in
      if cbus_refused e c.cbus0 13
        || (cbus_refused e c.cbus1 13
            || (cbus_refused e c.cbus2 13
                || (cbus_refused e c.cbus3 13 || cbus_refused e c.cbus4 9)))
      then some BuildError.bad_cbus
      else if e.chip_type == ftdi.type_r
      then none
      else if not (e.invert == 0)
      then some BuildError.bad_invert
      else if not (e.high_current == 0)
      then some BuildError.bad_high_current
      else none

  -- The `switch` for address 0x07.
  unfoldable pub release_byte : ℕ → ℕ
  release_byte t =
      if t == ftdi.type_am
      then 0x02
      else if t == ftdi.type_bm
      then 0x04
      else if t == ftdi.type_2232c
      then 0x05
      else if t == ftdi.type_r
      then 0x06
      else if t == ftdi.type_2232h
      then 0x07
      else if t == ftdi.type_4232h
      then 0x08
      else if t == ftdi.type_232h
      then 0x09
      else 0x00

-- `if (test) j |= bit;`
abbrev pub or_if : Bool → ℕ → ℕ → ℕ
or_if test bit j = if test then bit_or j bit else j

-- Address 0x08, by the tests of its flags.
unfoldable pub config_byte : Bool → Bool → ℕ
config_byte self_powered remote_wakeup =
    let j : ℕ = 0x80 in let j = or_if self_powered 0x40 j in or_if remote_wakeup 0x20 j

-- Address 0x0A, by the tests of its flags.
unfoldable pub chip_byte : (in_iso out_iso pull_downs use_serial change_usb : Bool) → ℕ
chip_byte in_iso out_iso pull_downs use_serial change_usb =
    let j : ℕ = 0 in
    let j = or_if in_iso 1 j in
    let j = or_if out_iso 2 j in
    let j = or_if pull_downs 4 j in let j = or_if use_serial 8 j in or_if change_usb 16 j

-- Addresses 0x02 to 0x16: the fixed part of the image, with the sizes of the three strings.
unfoldable pub descriptor : FtdiHeader → FtdiEeprom → (ms ps ss : ℕ) → Memory → Memory
descriptor ftdi e ms ps ss m =
    let m = put m 0x02 e.vendor_id in
    let m = put m 0x03 (e.vendor_id / 256) in
    let m = put m 0x04 e.product_id in
    let m = put m 0x05 (e.product_id / 256) in
    let m = put m 0x06 0x00 in
    let m = put m 0x07 (release_byte ftdi e.chip_type) in
    let m = put m 0x08 (config_byte (e.self_powered == 1) (e.remote_wakeup == 1)) in
    let m = put m 0x09 e.max_power in
    let m = put m 0x0A (
      chip_byte (e.in_is_isochronous == 1) (e.out_is_isochronous == 1) (e.suspend_pull_downs == 1)
        (e.use_serial == 1) (e.change_usb_version == 1)) in
    let m = put m 0x0B (bit_and e.invert 0xff) in
    let m =
      if e.change_usb_version == 1
      then put (put m 0x0C e.usb_version) 0x0D (e.usb_version / 256)
      else m in
    let m = put m 0x0F (ms * 2 + 2) in
    let m = put m 0x11 (ps * 2 + 2) in
    let m = put m 0x13 (ss * 2 + 2) in
    let c = e.cbus_function in
    let m = put m 0x14 (bit_or c.cbus0 (c.cbus1 * 16)) in
    let m = put m 0x15 (bit_or c.cbus2 (c.cbus3 * 16)) in put m 0x16 c.cbus4

-- The characters behind a `char *`; a NULL is only passed on with size 0.
abbrev pub text_of : Option (List ℕ) → List ℕ
text_of none = []
text_of (some s) = s

-- The three strings from position `start` on, with their offsets at 0x0E, 0x10 and 0x12.
unfoldable pub string_area : FtdiEeprom → (start : ℕ) → Memory → Memory
string_area e start m =
    let mask = (e.size + 255) % 256 in
    let ms = string_size e.manufacturer in
    let ps = string_size e.product in
    let ss = string_size e.serial in
    let m = put m 0x0E start in
    let cur = emit_string mask ms (text_of e.manufacturer) (record { at = start; out = m }) in
    let m = put cur.out 0x10 (bit_or cur.at 0x80) in
    let cur = emit_string mask ps (text_of e.product) (record { at = cur.at; out = m }) in
    let m = put cur.out 0x12 (bit_or cur.at 0x80) in
    (emit_string mask ss (text_of e.serial) (record { at = cur.at; out = m })).out

-- The checksum over all but the last two bytes, and the return.
unfoldable pub seal : FtdiEeprom → (size_check : ℕ) → Memory → Built
seal e size_check m = elim (checksum (e.size / 2 - 1) m) [
  | none ↦ diverges
  | some c ↦
      if ltb e.size 2
      then fault
      else built size_check (put (put m (e.size - 2) c) (e.size - 1) (c / 256))
]

-- The image up to the checksum: bytes 0x00 and 0x01 and the EEPROM type at 0x1e are the 232H's.
unfoldable pub image_232h : FtdiHeader → FtdiEeprom → Memory → Memory
image_232h ftdi e out =
    let ms = string_size e.manufacturer in
    let ps = string_size e.product in
    let ss = string_size e.serial in
    let m = memset out 0 e.size in
    let m = put (put m 0x00 0x10) 0x01 0x00 in
    let m = descriptor ftdi e ms ps ss m in
    let m = put m 0x1e 0x66 in let m = put m 0x8a 0x48 in string_area e 0xA0 m

-- The space that the strings take up.
abbrev pub text_space : FtdiEeprom → ℕ
text_space e = string_size e.manufacturer * 2 + string_size e.product * 2 + string_size e.serial * 2

-- ftdi_232h_eeprom_build; `none` is a NULL pointer to the structure.
unfoldable pub ftdi_232h_eeprom_build : FtdiHeader → Option FtdiEeprom → Memory → Built
ftdi_232h_eeprom_build ftdi none out = refused BuildError.no_eeprom
ftdi_232h_eeprom_build ftdi (some e) out = elim (check ftdi e) [
  | some error ↦ refused error
  | none ↦
      if ltb 80 (text_space e)
      then refused BuildError.too_large
      else seal e (80 - text_space e) (image_232h ftdi e out)
]
