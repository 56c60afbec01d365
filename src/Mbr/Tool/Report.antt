-- ===== src/Mbr/Tool/Report.antt =====
-- What hdmbr/main.c prints where readMBR returns 0.
use mathlib.Core.Path.{subst}
use c_modules.Base.{
  sym, ℕ, ◌*◌, ◌/◌, ◌%◌, ◌^◌, ◌<◌, ◌≡◌, refl, arith, some, List, ◌++◌, Memory, codes, IsCString,
}
use c_modules.Base.Decimal.{decimal}
use c_modules.Mbr.Text.Trim.{IsTrimOf}
use c_modules.Mbr.Capacity.{AtaIdentifyDevice, get_num_sectors, determine_capacity}
use c_modules.Mbr.Identify.{DiskDriver, read_mbr}
use c_modules.Mbr.Tool.{newdata, show_disk, size_text, ToolRun, report, after_mbr, disk_tool}
use c_modules.Mbr.Tool.Fields.{exchanged, show_field-IsTrimOf}

-- Fields without a NUL in them.
pub record IsPrintable (drive : AtaIdentifyDevice) : Type 0 where
  pub model : IsCString (exchanged drive.model 0 20)
  pub serial_no : IsCString (exchanged drive.serial_no 0 10)
  pub fw_rev : IsCString (exchanged drive.fw_rev 0 4)

-- The model, the serial number and the firmware of a drive as the words have them, without the spaces
-- around them, and its bytes in units of 10^9.
pub record Prints (drive : AtaIdentifyDevice) (run : ToolRun) : Type 0 where
  pub mode_name : List ℕ
  pub serial_number : List ℕ
  pub fw : List ℕ
  pub printed :
      run
      ≡ report
          (some mode_name)
          (some serial_number)
          (some fw)
          (decimal 20 (get_num_sectors drive * 512 % 2 ^ 64 / 1000000000) ++ codes "Gbytes")
  pub mode_name_trim : IsTrimOf (exchanged drive.model 0 20) mode_name
  pub serial_number_trim : IsTrimOf (exchanged drive.serial_no 0 10) serial_number
  pub fw_trim : IsTrimOf (exchanged drive.fw_rev 0 4) fw

show_disk-Prints :
    (fuel : ℕ) (mode_name serial_number : Memory) (drive : AtaIdentifyDevice)
    → 40 < fuel
    → IsPrintable drive
    → Prints drive (show_disk fuel mode_name serial_number drive)
unfolding show_disk size_text determine_capacity
show_disk-Prints fuel mode_name serial_number drive enough ok =
    let (m, em, tm) = show_field-IsTrimOf fuel mode_name drive.model 20 ok.model (omega arith) in
    let (s, es, ts) =
      show_field-IsTrimOf fuel serial_number drive.serial_no 10 ok.serial_no (omega arith) in
    let (f, ef, tf) =
      show_field-IsTrimOf fuel serial_number drive.fw_rev 4 ok.fw_rev (omega arith) in
    record {
      mode_name = m;
      serial_number = s;
      fw = f;
      printed = rw (em, es, ef) refl;
      mode_name_trim = tm;
      serial_number_trim = ts;
      fw_trim = tf;
    }

-- Where readMBR returns 0 with a block whose texts have no NUL, and with fuel above 40, the program
-- prints the model, the serial number and the firmware with the bytes of each word exchanged and
-- without the spaces around them, and the capacity in units of 10^9 bytes.
pub disk_tool-Prints :
    {S : Type 0} (driver : DiskDriver S) (fuel : ℕ) (mode_name serial_number block : Memory) (s : S)
    → (let r = read_mbr driver (codes "/dev/sda") block s in
        r.result ≡ 0
        → 40 < fuel
        → IsPrintable (newdata r.block)
        → Prints (newdata r.block) (disk_tool driver fuel mode_name serial_number block s))
unfolding disk_tool after_mbr
disk_tool-Prints driver fuel mode_name serial_number block s returned enough ok =
    let r = read_mbr driver (codes "/dev/sda") block s in
    subst (λ n. Prints (newdata r.block) (after_mbr fuel mode_name serial_number n r.block))
      (sym returned) (show_disk-Prints fuel mode_name serial_number (newdata r.block) enough ok)
