-- ===== src/Hello/Ioctl.antt =====
-- hello_zero_ioctl and hello_one_ioctl of hello-driver/hello.c. Numbers are bit patterns: `int` has
-- 32 bits, `long` 64.
use c_modules.Base.{
  ℕ, ◌+◌, ◌-◌, ◌^◌, Bool, true, false, not, Memory, ltb, ◌==◌, if◌then◌else◌, zero, suc, write,
}

-- `hello_transfer` of hello.h.
pub record Transfer : Type 0 where
  pub len : ℕ
  pub tx_buf : ℕ
  pub rx_buf : ℕ

-- The codes of hello.h by the macros of linux/ioctl.h, which is not in the repository, and what the
-- macros _IOC_TYPE and _IOC_NR make of a request.
pub record HelloCodes : Type 0 where
  pub ioc_type : ℕ → ℕ
  pub ioc_nr : ℕ → ℕ
  pub hello_write : ℕ
  pub hello_read : ℕ

-- A process: its memory, the structure that `copy_from_user(&data, arg, …)` leaves in `data`, and how
-- many bytes of `n` at an address a copy reaches.
pub record Process : Type 0 where
  pub memory : Memory
  pub transfer_at : ℕ → Transfer
  pub reached : (address n : ℕ) → ℕ

-- The fields of `struct hello_pipe` that ioctl uses: `data`, `len` and whether `lock` is held.
pub record Pipe : Type 0 where
  pub bytes : Memory
  pub len : ℕ
  pub locked : Bool

-- What a call comes to: a return, a wait for a mutex that nobody will release, or an access behind
-- the 1024 bytes of `data`.
pub data Outcome : Type 0 where
  returned : (result : ℕ) → Pipe → Memory → Outcome
  waits : Outcome
  overruns : Outcome

abbrev pub hello_ioc_magic : ℕ
hello_ioc_magic = b'a'

abbrev pub hello_ioc_maxnr : ℕ
hello_ioc_maxnr = 4

abbrev pub data_size : ℕ
data_size = 1024

-- `-ENOTTY`
abbrev pub enotty : ℕ
enotty = 2 ^ 64 - 25

-- An `int` as a `long` or as the size of a copy.
unfoldable pub extended : ℕ → ℕ
extended n = if ltb n (2 ^ 31) then n else n + (2 ^ 64 - 2 ^ 32)

-- `n` bytes from `source` at `from` to `dest` at `to`.
abbrev pub copy : (dest : Memory) → (to : ℕ) → (source : Memory) → (from n : ℕ) → Memory
copy dest to source from n q =
    if ltb q to then dest q else if ltb q (to + n) then source (from + (q - to)) else dest q

-- `case HELLO_READ`: the transfer's `len` is set in the kernel's copy only.
unfoldable pub read_command : Process → Transfer → Pipe → Outcome
unfolding extended
read_command p t pipe =
    let n = p.reached t.rx_buf (extended pipe.len) in
    if ltb data_size n
    then overruns
    else returned (extended pipe.len) pipe (copy p.memory t.rx_buf pipe.bytes 0 n)

-- `k` zeros from `at` on.
unfoldable pub zero_fill : Memory → (at k : ℕ) → Memory
zero_fill m at zero = m
zero_fill m at (suc k) = zero_fill (write m at 0) (at + 1) k

-- `case HELLO_WRITE`: copy_from_user fills with zeros what it does not reach.
unfoldable pub write_command : Process → Transfer → Pipe → Outcome
unfolding extended zero_fill
write_command p t pipe =
    let size = extended t.len in
    let n = p.reached t.tx_buf size in
    let bytes = zero_fill (copy pipe.bytes 0 p.memory t.tx_buf n) n (size - n) in
    if ltb data_size size
    then overruns
    else returned size (record pipe { len = t.len; bytes = bytes }) p.memory

-- The switch.
unfoldable pub command : HelloCodes → Process → (req arg : ℕ) → Pipe → Outcome
unfolding read_command write_command
command codes p req arg pipe =
    let t = p.transfer_at arg in
    if req == codes.hello_read
    then read_command p t pipe
    else if req == codes.hello_write
    then write_command p t pipe
    else returned 0 pipe p.memory

-- mutex_unlock
unfoldable pub unlocked : Outcome → Outcome
unlocked (returned result pipe memory) = returned result (record pipe { locked = false }) memory
unlocked waits = waits
unlocked overruns = overruns

-- hello_zero_ioctl: the early returns keep the mutex.
unfoldable pub hello_zero_ioctl : HelloCodes → Process → (req arg : ℕ) → Pipe → Outcome
unfolding command unlocked
hello_zero_ioctl codes p req arg pipe =
    if pipe.locked
    then waits
    else (let pipe = record pipe { locked = true } in
        if not (codes.ioc_type req == hello_ioc_magic)
        then returned enotty pipe p.memory
        else if ltb hello_ioc_maxnr (codes.ioc_nr req)
        then returned enotty pipe p.memory
        else unlocked (command codes p req arg pipe))

-- hello_one_ioctl
unfoldable pub hello_one_ioctl : HelloCodes → Process → (req arg : ℕ) → Pipe → Outcome
unfolding command unlocked
hello_one_ioctl codes p req arg pipe =
    if pipe.locked
    then waits
    else (let pipe = record pipe { locked = true } in
        if not (codes.ioc_type req == hello_ioc_magic)
        then returned enotty pipe p.memory
        else if ltb hello_ioc_maxnr (codes.ioc_nr req)
        then returned enotty pipe p.memory
        else unlocked (command codes p req arg pipe))
