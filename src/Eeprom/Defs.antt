-- ===== src/Eeprom/Defs.antt =====
-- The data of ftdi-eeprom/eeprom.c: `struct ftdi_eeprom` with the fields that the file uses, and the
-- constants that it takes from libftdi's ftdi.h.
use c_modules.Base.{ℕ, ◌%◌, Option, none, some, List, Memory, write, strlen}

-- libftdi's ftdi.h is not part of the repository: its constants are a parameter.
pub record FtdiHeader : Type 0 where
  pub type_am : ℕ
  pub type_bm : ℕ
  pub type_2232c : ℕ
  pub type_r : ℕ
  pub type_2232h : ℕ
  pub type_4232h : ℕ
  pub type_232h : ℕ
  pub high_current_drive : ℕ

-- `cbus_function[5]`
pub record Cbus : Type 0 where
  pub cbus0 : ℕ
  pub cbus1 : ℕ
  pub cbus2 : ℕ
  pub cbus3 : ℕ
  pub cbus4 : ℕ

-- The numbers are the non-negative values of the C fields; `none` is the NULL of a string.
pub record FtdiEeprom : Type 0 where
  pub vendor_id : ℕ
  pub product_id : ℕ
  pub self_powered : ℕ
  pub remote_wakeup : ℕ
  pub chip_type : ℕ
  pub in_is_isochronous : ℕ
  pub out_is_isochronous : ℕ
  pub suspend_pull_downs : ℕ
  pub use_serial : ℕ
  pub change_usb_version : ℕ
  pub usb_version : ℕ
  pub max_power : ℕ
  pub high_current : ℕ
  pub invert : ℕ
  pub size : ℕ
  pub cbus_function : Cbus
  pub manufacturer : Option (List ℕ)
  pub product : Option (List ℕ)
  pub serial : Option (List ℕ)

-- A store to an `unsigned char`.
abbrev pub put : Memory → ℕ → ℕ → Memory
put m p v = write m p (v % 256)

-- `if (s != NULL) n = strlen(s);` with `n` an `unsigned char` that starts at 0.
unfoldable pub string_size : Option (List ℕ) → ℕ
string_size none = 0
string_size (some s) = strlen s % 256
