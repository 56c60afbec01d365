-- ===== src/Eeprom/Defaults.antt =====
-- default232H_EEPROM and defaultEEPROM of ftdi-eeprom/eeprom.c. Neither sets the serial number.
use c_modules.Base.{some, codes}
use c_modules.Eeprom.Defs.{FtdiEeprom}

unfoldable pub default232h_eeprom : FtdiEeprom → FtdiEeprom
default232h_eeprom e = record e {
  vendor_id = 0x403;
  product_id = 0x6014;
  self_powered = 0;
  remote_wakeup = 0;
  chip_type = 0x6;
  in_is_isochronous = 0;
  out_is_isochronous = 0;
  suspend_pull_downs = 0;
  use_serial = 1;
  change_usb_version = 0;
  usb_version = 0;
  max_power = 50;
  high_current = 0;
  invert = 0;
  size = 256;
  cbus_function = record { cbus0 = 0; cbus1 = 0; cbus2 = 0; cbus3 = 0; cbus4 = 0 };
  manufacturer = some (codes "FTDI");
  product = some (codes "USB <-> Serial Converter");
}

unfoldable pub default_eeprom : FtdiEeprom → FtdiEeprom
default_eeprom e = record e {
  vendor_id = 0x403;
  product_id = 0x6010;
  self_powered = 0;
  remote_wakeup = 0;
  chip_type = 0x4;
  in_is_isochronous = 0;
  out_is_isochronous = 0;
  suspend_pull_downs = 0;
  use_serial = 1;
  change_usb_version = 0;
  usb_version = 0;
  max_power = 50;
  high_current = 0;
  invert = 0;
  size = 128;
  cbus_function = record { cbus0 = 0; cbus1 = 0; cbus2 = 0; cbus3 = 0; cbus4 = 0 };
  manufacturer = some (codes "FTDI");
  product = some (codes "USB <-> Serial Converter");
}
