-- ===== src/Eeprom/Build2232h.antt =====
-- ftdi_2232h_eeprom_build of ftdi-eeprom/eeprom.c. It differs from the 232H builder in the first
-- two bytes, the EEPROM type, the start of the strings and the space that it grants them.
use c_modules.Base.{ℕ, ◌+◌, ◌-◌, Option, none, some, ltb, leb, if◌then◌else◌, Memory, memset}
use c_modules.Eeprom.Defs.{FtdiHeader, FtdiEeprom, put, string_size}
use c_modules.Eeprom.Build.{
  Built, refused, BuildError, check, descriptor, string_area, seal, text_space,
}

-- The image up to the strings.
unfoldable pub header_2232h : FtdiHeader → FtdiEeprom → Memory → Memory
header_2232h ftdi e out =
    let ms = string_size e.manufacturer in
    let ps = string_size e.product in
    let ss = string_size e.serial in
    let m = memset out 0 e.size in
    let m = put (put m 0x00 0x8) 0x01 0x8 in let m = descriptor ftdi e ms ps ss m in put m 0x18 0x46

-- The strings, the checksum and the return.
unfoldable pub body_2232h : FtdiEeprom → (size_check : ℕ) → Memory → Built
body_2232h e size_check m = seal e size_check (string_area e 0x9A m)

-- ftdi_2232h_eeprom_build. `28 + space > size` is `size - 28 - space < 0`.
unfoldable pub ftdi_2232h_eeprom_build : FtdiHeader → Option FtdiEeprom → Memory → Built
ftdi_2232h_eeprom_build ftdi none out = refused BuildError.no_eeprom
ftdi_2232h_eeprom_build ftdi (some e) out = elim (check ftdi e) [
  | some error ↦ refused error
  | none ↦
      let m = header_2232h ftdi e out in
      if leb 256 e.size
      then (if ltb 120 (text_space e)
          then refused BuildError.too_large
          else body_2232h e (120 - text_space e) m)
      else (if ltb e.size (28 + text_space e)
          then refused BuildError.too_large
          else body_2232h e (e.size - 28 - text_space e) m)
]
