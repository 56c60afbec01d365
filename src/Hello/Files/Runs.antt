-- ===== src/Hello/Files/Runs.antt =====
-- Runs of the calls of hello-driver/hello.c: which end, which wait for ever, which overrun the buffer.
use c_modules.Base.{
  ℕ, ◌+◌, ◌-◌, ◌<◌, ◌≤◌, ◌≡◌, ◌≢◌, ◌⊎◌, inl, inr, refl, ap, ◌∙◌, true, false, ◌==◌, Memory, arith,
  Bool-cases, ne→==, ==_iff, lt→ltb, le→ltb,
}
use c_modules.Hello.Ioctl.{
  HelloCodes, Process, Pipe, returned, hello_zero_ioctl, hello_one_ioctl, hello_ioc_magic, extended,
  copy, command, read_command, write_command, unlocked, zero_fill,
}
use c_modules.Hello.Files.{
  hello_open, unlocked_ioctl, IoctlCall, ioctl, hello_zero_open, hello_one_open,
}

-- The documented codes: magic and number of the two commands, which differ.
pub record IsCoded (codes : HelloCodes) : Type 0 where
  pub write_type : codes.ioc_type codes.hello_write ≡ hello_ioc_magic
  pub write_nr : codes.ioc_nr codes.hello_write ≡ 1
  pub read_type : codes.ioc_type codes.hello_read ≡ hello_ioc_magic
  pub read_nr : codes.ioc_nr codes.hello_read ≡ 2
  pub apart : codes.hello_write ≢ codes.hello_read

-- A request that the two early returns let pass.
pub record IsHello (codes : HelloCodes) (req : ℕ) : Type 0 where
  pub magic : codes.ioc_type req ≡ hello_ioc_magic
  pub number : codes.ioc_nr req ≤ 4

pub extended_small : (n : ℕ) → n ≤ 1024 → extended n ≡ n
unfolding extended
extended_small n h = ground arith

pub copy-inside :
    (dest : Memory) (to : ℕ) (source : Memory) (from n k : ℕ)
    → k < n
    → copy dest to source from n (to + k) ≡ source (from + k)
copy-inside dest to source from n k lt =
    rw (le→ltb (to + k) to (omega arith), lt→ltb (to + k) (to + n) (omega arith))
      (ap (λ z. source (from + z)) {x = to + k - to} {y = k} (omega arith))

pub copy-outside :
    (dest : Memory) (to : ℕ) (source : Memory) (from n q : ℕ)
    → (q < to) ⊎ (to + n ≤ q)
    → copy dest to source from n q ≡ dest q
copy-outside dest to source from n q out = ground arith

-- The two devices have one ioctl.
pub ioctl-device :
    (codes : HelloCodes) (c : IoctlCall) (pipe : Pipe)
    → c.minor < 2
    → ioctl codes c pipe ≡ hello_zero_ioctl codes c.process c.req c.arg pipe
unfolding ioctl hello_open unlocked_ioctl hello_zero_ioctl hello_one_ioctl hello_zero_open
    hello_one_open
ioctl-device codes c pipe lt = elim (Bool-cases (c.minor == 0)) [
  | inl zero_minor ↦ rw zero_minor refl
  | inr other ↦ rw (other, (==_iff c.minor 1).1 (ground arith)) refl
]

-- A request that passes, on a free mutex.
pub zero_ioctl-command :
    (codes : HelloCodes) (p : Process) (req arg : ℕ) (pipe : Pipe)
    → IsHello codes req
    → pipe.locked ≡ false
    → hello_zero_ioctl codes p req arg pipe
      ≡ unlocked (command codes p req arg (record pipe { locked = true }))
unfolding hello_zero_ioctl
zero_ioctl-command codes p req arg pipe h free =
    rw (free, (==_iff (codes.ioc_type req) hello_ioc_magic).1 h.magic) (ground (arith, h.number))

module _ (codes : HelloCodes) (coded : IsCoded codes) where
  pub write-IsHello : IsHello codes codes.hello_write
  write-IsHello = record { magic = coded.write_type; number = omega (arith, coded.write_nr) }

  read-IsHello : IsHello codes codes.hello_read
  read-IsHello = record { magic = coded.read_type; number = omega (arith, coded.read_nr) }

  pub command-write :
      (p : Process) (arg : ℕ) (pipe : Pipe)
      → command codes p codes.hello_write arg pipe ≡ write_command p (p.transfer_at arg) pipe
  unfolding command
  command-write p arg pipe =
      rw
        (
          ne→== codes.hello_write codes.hello_read coded.apart,
          (==_iff codes.hello_write codes.hello_write).1 refl,
        )
        refl

  command-read :
      (p : Process) (arg : ℕ) (pipe : Pipe)
      → command codes p codes.hello_read arg pipe ≡ read_command p (p.transfer_at arg) pipe
  unfolding command
  command-read p arg pipe = rw ((==_iff codes.hello_read codes.hello_read).1 refl) refl

  -- HELLO_WRITE of a message that fits and can be read.
  pub write-done :
      (c : IoctlCall) (pipe : Pipe)
      → c.minor < 2
      → c.req ≡ codes.hello_write
      → pipe.locked ≡ false
      → (let t = c.process.transfer_at c.arg in
          (t.len ≤ 1024)
          → c.process.reached t.tx_buf t.len ≡ t.len
          → ioctl codes c pipe
            ≡ returned t.len
                (record {
                  bytes = copy pipe.bytes 0 c.process.memory t.tx_buf t.len;
                  len = t.len;
                  locked = false;
                })
                c.process.memory)
  unfolding write_command unlocked zero_fill
  write-done c pipe lt is_write free fits reaches =
      let p = c.process in
      let t = p.transfer_at c.arg in
      let all : t.len - t.len ≡ 0 = omega arith in
      ioctl-device codes c pipe lt
      ∙ ap (λ req. hello_zero_ioctl codes p req c.arg pipe) is_write
      ∙ zero_ioctl-command codes p codes.hello_write c.arg pipe write-IsHello free
      ∙ ap unlocked (command-write p c.arg (record pipe { locked = true }))
      ∙ rw (extended_small t.len fits, reaches, all, le→ltb 1024 t.len fits) refl

  pub read-done :
      (c : IoctlCall) (pipe : Pipe)
      → c.minor < 2
      → c.req ≡ codes.hello_read
      → pipe.locked ≡ false
      → (let t = c.process.transfer_at c.arg in
          (pipe.len ≤ 1024)
          → c.process.reached t.rx_buf pipe.len ≡ pipe.len
          → ioctl codes c pipe
            ≡ returned pipe.len
                (record pipe { locked = false })
                (copy c.process.memory t.rx_buf pipe.bytes 0 pipe.len))
  unfolding read_command unlocked
  read-done c pipe lt is_read free fits reaches =
      let p = c.process in
      let t = p.transfer_at c.arg in
      ioctl-device codes c pipe lt
      ∙ ap (λ req. hello_zero_ioctl codes p req c.arg pipe) is_read
      ∙ zero_ioctl-command codes p codes.hello_read c.arg pipe read-IsHello free
      ∙ ap unlocked (command-read p c.arg (record pipe { locked = true }))
      ∙ rw (extended_small pipe.len fits, reaches, le→ltb 1024 pipe.len fits) refl

  -- A message of at most 1024 bytes that HELLO_WRITE takes from one process through either device,
  -- HELLO_READ hands to another: both return its length, the bytes arrive at `rx_buf`, no other byte
  -- of the reader changes, and the mutex is free again.
  pub write-read :
      (w r : IoctlCall) (pipe : Pipe)
      → w.minor < 2
      → w.req ≡ codes.hello_write
      → r.minor < 2
      → r.req ≡ codes.hello_read
      → pipe.locked ≡ false
      → (let len = (w.process.transfer_at w.arg).len in
          let from = (w.process.transfer_at w.arg).tx_buf in
          let to = (r.process.transfer_at r.arg).rx_buf in
          len ≤ 1024
          → w.process.reached from len ≡ len
          → r.process.reached to len ≡ len
          → (between after : Pipe) × (memory : Memory) × (ioctl codes w pipe
              ≡ returned len between w.process.memory)
            × (ioctl codes r between ≡ returned len after memory)
            × ((k : ℕ) → k < len → memory (to + k) ≡ w.process.memory (from + k))
            × ((q : ℕ) → (q < to) ⊎ (to + len ≤ q) → memory q ≡ r.process.memory q)
            × (after.locked ≡ false))
  write-read w r pipe lt_w is_write lt_r is_read free fits sent got =
      let len = (w.process.transfer_at w.arg).len in
      let from = (w.process.transfer_at w.arg).tx_buf in
      let to = (r.process.transfer_at r.arg).rx_buf in
      let between : Pipe = record {
        bytes = copy pipe.bytes 0 w.process.memory from len;
        len = len;
        locked = false;
      } in
      (
        between,
        between,
        copy r.process.memory to between.bytes 0 len,
        write-done w pipe lt_w is_write free fits sent,
        read-done r between lt_r is_read refl fits got,
        λ k lt.
            copy-inside r.process.memory to between.bytes 0 len k lt
            ∙ ap between.bytes {x = 0 + k} {y = k} (omega arith)
            ∙ ap (copy pipe.bytes 0 w.process.memory from len) {x = k} {y = 0 + k} (omega arith)
            ∙ copy-inside pipe.bytes 0 w.process.memory from len k lt,
        λ q out. copy-outside r.process.memory to between.bytes 0 len q out,
        refl,
      )
