-- ===== src/Eeprom/Command.antt =====
-- `main` of ftdi-eeprom/eeprom.c. The device and libftdi are reached by calls: a run is the list of
-- the calls that it makes, given what they return. Arguments are the texts behind the program's name.
pub mod Serial
use c_modules.Base.{
  take, not, ℕ, zero, suc, ◌+◌, ◌*◌, ◌-◌, ◌%◌, Bool, true, false, ◌&&◌, ◌||◌, Option, none, some,
  List, [], ◌∷◌, ◌++◌, leb, ltb, ◌==◌, if◌then◌else◌, Memory, codes, strlen, get_or, length,
}
use c_modules.Eeprom.Defs.{FtdiHeader, FtdiEeprom}
use c_modules.Eeprom.Build.{Built, built, refused, fault, diverges, ftdi_232h_eeprom_build}
use c_modules.Eeprom.Decode.{Decoded, decoded, ftdi_66eeprom_decode}
use c_modules.Eeprom.Defaults.{default232h_eeprom}

-- Calls of libftdi that reach the device.
pub data Call : Type 0 where
  ftdi_init : Call
  ftdi_usb_open : (vendor product : ℕ) → Call
  ftdi_eeprom_setsize : ℕ → Call
  ftdi_read_eeprom_location : ℕ → Call
  ftdi_read_eeprom : Call
  ftdi_erase_eeprom : Call
  ftdi_write_eeprom_location : (address value : ℕ) → Call
  ftdi_write_eeprom : Memory → Call
  ftdi_free : Call

-- How a run ends: a return of 0 (with the help text or not) or of -1, or no return.
pub data Exit : Type 0 where
  success help failure crash : Exit

pub record Run : Type 0 where
  pub calls : List Call
  pub exit : Exit

-- What the environment gives: the results of `ftdi_init` and `ftdi_usb_open` (0 is success), the
-- image that `ftdi_read_eeprom` delivers, and the content of the structure that `malloc` returns.
pub record Environment : Type 0 where
  pub init_result : ℕ
  pub open_result : ℕ
  pub device_image : Memory
  pub fresh : FtdiEeprom

-- `strcmp(a, b) == 0`
unfoldable pub same_text : List ℕ → List ℕ → Bool
same_text [] [] = true
same_text [] (y ∷ ys) = false
same_text (x ∷ xs) [] = false
same_text (x ∷ xs) (y ∷ ys) = (x == y) && same_text xs ys

-- `atoi` on what follows the white space and the sign.
unfoldable pub digits_value : ℕ → List ℕ → ℕ
digits_value n [] = n
digits_value n (c ∷ cs) = if leb 48 c && leb c 57 then digits_value (n * 10 + (c - 48)) cs else n

-- `isspace` of the C locale.
unfoldable pub is_space : ℕ → Bool
is_space c = c == 32 || (leb 9 c && leb c 13)

-- `atoi`, as a sign and a magnitude.
unfoldable pub atoi : List ℕ → Bool × ℕ
unfolding digits_value is_space
atoi [] = (false, 0)
atoi (c ∷ cs) =
    if is_space c
    then atoi cs
    else if c == 45
    then (true, digits_value 0 cs)
    else if c == 43
    then (false, digits_value 0 cs)
    else (false, digits_value 0 (c ∷ cs))

-- `(add < 0) || (add > 127)` gives none.
unfoldable pub address_of : List ℕ → Option ℕ
address_of text =
    let (negative, n) = atoi text in if (negative && ltb 0 n) || ltb 127 n then none else some n

-- `unsigned short value = atoi(text);`
unfoldable pub short_of : List ℕ → ℕ
short_of text =
    let (negative, n) = atoi text in if negative then (65536 - n % 65536) % 65536 else n % 65536

-- The test of one character of a serial number.
unfoldable pub is_serial_char : ℕ → Bool
is_serial_char c =
    (leb 0x30 c && leb c 0x39) || ((leb 0x41 c && leb c 0x46) || (leb 0x61 c && leb c 0x65))

-- The loop over the first `n` characters.
unfoldable pub serial_ok : ℕ → List ℕ → Bool
unfolding is_serial_char
serial_ok zero s = true
serial_ok (suc n) [] = false
serial_ok (suc n) (c ∷ cs) = is_serial_char c && serial_ok n cs

-- What is written: the builder's error is not looked at, and leaves the buffer of zeros.
unfoldable pub written : Built → Option Memory
written (built left image) = some image
written (refused error) = some (λ _. 0)
written fault = none
written diverges = none

-- The structure of `write_serial`.
unfoldable pub serial_eeprom : FtdiEeprom → List ℕ → FtdiEeprom
unfolding default232h_eeprom
serial_eeprom fresh s = record (default232h_eeprom fresh) { serial = some (take 12 s) }

-- The end of a run that opened the device: the calls of the command stand before `ftdi_free`.
abbrev pub opened : List Call
opened = ftdi_init ∷ ftdi_usb_open 0x403 0x6014 ∷ ftdi_eeprom_setsize 256 ∷ []

abbrev pub finish : List Call → Exit → Run
finish calls exit = record { calls = opened ++ (calls ++ (ftdi_free ∷ [])); exit = exit }

unfoldable pub run_read : List ℕ → Run
run_read text = elim (address_of text) [
  | none ↦ finish [] Exit.help
  | some address ↦ finish (ftdi_read_eeprom_location address ∷ []) Exit.success
]

-- `readall` decodes and prints whatever the decoder returns; only a fault in it stops the run.
unfoldable pub run_readall : FtdiHeader → Environment → Run
run_readall ftdi env = elim (ftdi_66eeprom_decode ftdi (some env.fresh) env.device_image 256) [
  | Decoded.fault ↦ record { calls = opened ++ (ftdi_read_eeprom ∷ []); exit = Exit.crash }
  | Decoded.diverges ↦ record { calls = opened ++ (ftdi_read_eeprom ∷ []); exit = Exit.crash }
  | _ ↦ finish (ftdi_read_eeprom ∷ []) Exit.success
]

unfoldable pub run_write : List ℕ → List ℕ → Run
run_write text value = elim (address_of text) [
  | none ↦ finish [] Exit.help
  | some address ↦ finish (ftdi_write_eeprom_location address (short_of value) ∷ []) Exit.success
]

-- `char serialLen = strlen(argv[2]);` keeps the low byte of the length.
unfoldable pub run_write_serial : FtdiHeader → Environment → List ℕ → Run
run_write_serial ftdi env s =
    if (strlen s % 256 == 12) && serial_ok 12 s
    then (elim (written (ftdi_232h_eeprom_build ftdi (some (serial_eeprom env.fresh s)) (λ _. 0))) [
      | none ↦ record { calls = opened; exit = Exit.crash }
      | some image ↦ finish (ftdi_write_eeprom image ∷ []) Exit.success
    ])
    else finish [] Exit.help

-- The commands; `rest` are the arguments behind the command's name.
unfoldable pub run_command : FtdiHeader → Environment → List ℕ → List (List ℕ) → Run
run_command ftdi env name rest =
    let argc = length rest + 2 in
    let argv2 = get_or rest 0 [] in
    let argv3 = get_or rest 1 [] in
    if same_text name (codes "read")
    then (if argc == 3 then run_read argv2 else finish [] Exit.help)
    else (if same_text name (codes "readall")
        then run_readall ftdi env
        else (if same_text name (codes "erase")
            then finish (ftdi_erase_eeprom ∷ []) Exit.success
            else (if same_text name (codes "write")
                then (if argc == 4 then run_write argv2 argv3 else finish [] Exit.help)
                else (if same_text name (codes "write_serial")
                    then (if argc == 3
                        then run_write_serial ftdi env argv2
                        else finish [] Exit.help)
                    else finish [] Exit.success))))

-- `main`
unfoldable pub main : FtdiHeader → Environment → List (List ℕ) → Run
main ftdi env [] = record { calls = []; exit = Exit.help }
main ftdi env (name ∷ rest) =
    if not (env.init_result == 0)
    then (record { calls = ftdi_init ∷ []; exit = Exit.failure })
    else (if not (env.open_result == 0)
        then (record {
          calls = ftdi_init ∷ ftdi_usb_open 0x403 0x6014 ∷ ftdi_free ∷ [];
          exit = Exit.failure;
        })
        else run_command ftdi env name rest)
