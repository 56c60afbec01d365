-- ===== src/Hello/Files/Stops.antt =====
-- What stops the calls of hello-driver/hello.c, and what keeps them going.
use mathlib.Core.Path.{subst, sym}
use c_modules.Base.{
  suc, ℕ, ◌<◌, ◌≤◌, ◌≡◌, ◌⊎◌, inl, inr, refl, ap, ◌∙◌, true, false, List, [], ◌∷◌, ◌==◌, ltb,
  Memory, arith, length, All, Bool-cases, ne→==, lt→ltb, le→ltb, ltb→lt, ◌≢◌,
}
use c_modules.Hello.Ioctl.{
  HelloCodes, Process, Pipe, Outcome, returned, waits, overruns, hello_zero_ioctl, hello_ioc_magic,
  enotty, extended, command, read_command, write_command, unlocked,
}
use c_modules.Hello.Files.{
  IoctlCall, ioctl, finished, stopped, add_result, after_call, run, hello_open, unlocked_ioctl,
  hello_ioctl,
}
use c_modules.Hello.Files.Runs.{
  IsHello, IsCoded, ioctl-device, zero_ioctl-command, command-write, write-IsHello, extended_small,
}

-- A request that one of the early returns takes.
abbrev pub IsRefused : HelloCodes → ℕ → Type 0
IsRefused codes req = (codes.ioc_type req ≢ hello_ioc_magic) ⊎ (4 < codes.ioc_nr req)

zero_ioctl-refused :
    (codes : HelloCodes) (p : Process) (req arg : ℕ) (pipe : Pipe)
    → IsRefused codes req
    → pipe.locked ≡ false
    → hello_zero_ioctl codes p req arg pipe
      ≡ returned enotty (record pipe { locked = true }) p.memory
unfolding hello_zero_ioctl
zero_ioctl-refused codes p req arg pipe (inl other) free =
    rw (free, ne→== (codes.ioc_type req) hello_ioc_magic other) refl
zero_ioctl-refused codes p req arg pipe (inr above) free =
    rw (free, lt→ltb 4 (codes.ioc_nr req) above)
      (elim (Bool-cases (codes.ioc_type req == hello_ioc_magic)) [
        | inl magic ↦ rw magic refl
        | inr other ↦ rw other refl
      ])

zero_ioctl-waits :
    (codes : HelloCodes) (p : Process) (req arg : ℕ) (pipe : Pipe)
    → pipe.locked ≡ true
    → hello_zero_ioctl codes p req arg pipe ≡ waits
unfolding hello_zero_ioctl
zero_ioctl-waits codes p req arg pipe held = rw held refl

-- On a free mutex a request that the driver does not know returns ENOTTY, and every next call through
-- either device, whatever its request, waits for ever.
pub run-refused :
    (codes : HelloCodes) (bad next : IoctlCall) (rest : List IoctlCall) (pipe : Pipe)
    → bad.minor < 2
    → IsRefused codes bad.req
    → next.minor < 2
    → pipe.locked ≡ false
    → run codes (bad ∷ next ∷ rest) pipe ≡ stopped (enotty ∷ []) waits
unfolding run after_call add_result
run-refused codes bad next rest pipe lt refused lt' free =
    let held : Pipe = record pipe { locked = true } in
    ap (λ o. after_call o (run codes (next ∷ rest)))
      (ioctl-device codes bad pipe lt
        ∙ zero_ioctl-refused codes bad.process bad.req bad.arg pipe refused free)
    ∙ ap (λ o. add_result enotty (after_call o (run codes rest)))
        (ioctl-device codes next held lt'
          ∙ zero_ioctl-waits codes next.process next.req next.arg held refl)

extended_long : (n : ℕ) → 1024 < n → 1024 < extended n
unfolding extended
extended_long n h = ground arith

-- A HELLO_WRITE with a length above 1024, or a negative one, whose bit pattern is above that too, runs
-- over the buffer, however much of the text can be read.
run-overruns :
    (codes : HelloCodes) (coded : IsCoded codes) (c : IoctlCall) (rest : List IoctlCall)
    (pipe : Pipe)
    → c.minor < 2
    → c.req ≡ codes.hello_write
    → pipe.locked ≡ false
    → 1024 < (c.process.transfer_at c.arg).len
    → run codes (c ∷ rest) pipe ≡ stopped [] overruns
unfolding run after_call write_command unlocked
run-overruns codes coded c rest pipe lt is_write free long =
    let p = c.process in
    let held : Pipe = record pipe { locked = true } in
    let len = (p.transfer_at c.arg).len in
    ap (λ o. after_call o (run codes rest)) {y = overruns}
      (ioctl-device codes c pipe lt
        ∙ ap (λ req. hello_zero_ioctl codes p req c.arg pipe) is_write
        ∙ zero_ioctl-command codes p codes.hello_write c.arg pipe (write-IsHello codes coded) free
        ∙ ap unlocked (command-write codes coded p c.arg held)
        ∙ rw (lt→ltb 1024 (extended len) (extended_long len long)) refl)

-- The mutex is free, and the length that is stored fits.
pub record IsGood (pipe : Pipe) : Type 0 where
  pub free : pipe.locked ≡ false
  pub fits : pipe.len ≤ 1024

-- A call that keeps the rules: a known type and number, at most 1024 bytes to write, and copies that
-- reach no more than they are asked for.
pub record IsProper (codes : HelloCodes) (c : IoctlCall) : Type 0 where
  pub known : IsHello codes c.req
  pub short : (c.process.transfer_at c.arg).len ≤ 1024
  pub reach : (address n : ℕ) → c.process.reached address n ≤ n

-- A call ends with a good pipe.
pub record EndsGood (o : Outcome) : Type 0 where
  pub result : ℕ
  pub after : Pipe
  pub memory : Memory
  pub ends : o ≡ returned result after memory
  pub good : IsGood after

command-EndsGood :
    (codes : HelloCodes) (c : IoctlCall) (pipe : Pipe)
    → IsProper codes c
    → pipe.len ≤ 1024
    → EndsGood (unlocked (command codes c.process c.req c.arg pipe))
unfolding command read_command write_command unlocked
command-EndsGood codes c pipe proper fits =
    let p = c.process in
    let t = p.transfer_at c.arg in
    let held : Pipe = record pipe { locked = true } in
    elim (Bool-cases (c.req == codes.hello_read)) [
      | inl reads ↦
          rw
            (
              reads,
              extended_small pipe.len fits,
              le→ltb 1024 (p.reached t.rx_buf pipe.len)
                  (omega (arith, proper.reach t.rx_buf pipe.len)),
            )
            (record {
              result = _;
              after = _;
              memory = _;
              ends = refl;
              good = record { free = refl; fits = fits };
            })
      | inr other ↦ elim (Bool-cases (c.req == codes.hello_write)) [
        | inl writes ↦
            rw (other, writes, extended_small t.len proper.short, le→ltb 1024 t.len proper.short)
              (record {
                result = _;
                after = _;
                memory = _;
                ends = refl;
                good = record { free = refl; fits = proper.short };
              })
        | inr unknown ↦
            rw (other, unknown)
              (record {
                result = _;
                after = _;
                memory = _;
                ends = refl;
                good = record { free = refl; fits = fits };
              })
      ]
    ]

ioctl-other :
    (codes : HelloCodes) (c : IoctlCall) (pipe : Pipe)
    → 2 ≤ c.minor
    → ioctl codes c pipe ≡ returned 0 pipe c.process.memory
unfolding ioctl hello_open unlocked_ioctl hello_ioctl
ioctl-other codes c pipe le =
    rw
      (
        ne→== c.minor 0 (λ e. absurd (omega (arith, e))),
        ne→== c.minor 1 (λ e. absurd (omega (arith, e))),
      )
      refl

ioctl-EndsGood :
    (codes : HelloCodes) (c : IoctlCall) (pipe : Pipe)
    → IsProper codes c
    → IsGood pipe
    → EndsGood (ioctl codes c pipe)
ioctl-EndsGood codes c pipe proper good = elim (Bool-cases (ltb c.minor 2)) [
  | inl device ↦
      subst EndsGood
        (sym (
          ioctl-device codes c pipe (ltb→lt c.minor 2 device)
          ∙ zero_ioctl-command codes c.process c.req c.arg pipe proper.known good.free))
        (command-EndsGood codes c (record pipe { locked = true }) proper good.fits)
  | inr other ↦ record {
    result = 0;
    after = pipe;
    memory = c.process.memory;
    ends = ioctl-other codes c pipe (ground arith);
    good = good;
  }
]

-- Proper calls, however many, through any minor numbers: all of them return, and the pipe stays good.
pub run-IsGood :
    (codes : HelloCodes) (cs : List IoctlCall) (pipe : Pipe)
    → All (IsProper codes) cs
    → IsGood pipe
    → (results : List ℕ) × (after : Pipe) × (run codes cs pipe ≡ finished results after)
      × (length results ≡ length cs)
      × IsGood after
unfolding run after_call add_result
run-IsGood codes [] pipe proper good = ([], pipe, refl, refl, good)
run-IsGood codes (c ∷ cs) pipe (first, others) good =
    let e = ioctl-EndsGood codes c pipe first good in
    let (rs, after, runs, size, ends) = run-IsGood codes cs e.after others e.good in
    (
      e.result ∷ rs,
      after,
      ap (λ o. after_call o (run codes cs)) e.ends ∙ ap (add_result e.result) runs,
      ap suc size,
      ends,
    )
