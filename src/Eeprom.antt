-- ===== src/Eeprom.antt =====
-- ftdi-eeprom/eeprom.c: images for the EEPROM of FTDI chips. The parts: the data, the checksum, the
-- string area, the two builders, the decoder, the defaults and the command line.
pub mod Defs
pub mod Checksum
pub mod Strings
pub mod Build
pub mod Build2232h
pub mod Decode
pub mod Defaults
pub mod RoundTrip
pub mod Images
pub mod Returns
pub mod Command
mod Examples
