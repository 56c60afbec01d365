-- ===== src/Mbr/Identify.antt =====
-- readMBR of hdmbr/mbr.c: the identify block comes from the kernel's disk driver. The printed words
-- are left out.
use c_modules.Base.{
  ℕ, ◌+◌, ◌≤◌, ◌⊎◌, inl, inr, ◌≡◌, refl, Bool, true, false, Option, none, some, List, ltb,
  if◌then◌else◌, Memory, write, arith,
}

-- What a call of ioctl leaves of the driver's state and of `args`.
pub record Identified (S : Type 0) : Type 0 where
  pub state : S
  pub failed : Bool
  pub args : Memory

-- The kernel, on a state of its own: `open`, `ioctl` with HDIO_DRIVE_CMD, `close` and `errno`, and the
-- two command codes of linux/hdreg.h. A descriptor of `none` is a negative one.
pub record DiskDriver (S : Type 0) : Type 0 where
  pub win_identify : ℕ
  pub win_pidentify : ℕ
  pub open_device : S → List ℕ → Option ℕ × S
  pub drive_cmd : S → (fd : ℕ) → Memory → Identified S
  pub close_device : S → (fd : ℕ) → S
  pub errno : S → ℕ

pub record ReadMbr (S : Type 0) : Type 0 where
  pub result : ℕ
  pub block : Memory
  pub state : S

module _ {S : Type 0} (driver : DiskDriver S) where
  -- `{WIN_IDENTIFY,0,0,1,}`
  unfoldable pub start_args : Memory
  start_args = write (write (λ _. 0) 0 driver.win_identify) 3 1

  -- `memcpy(data, &args[4], 512)`, `close` and the return.
  unfoldable pub delivered : (fd : ℕ) → (block : Memory) → Identified S → ReadMbr S
  delivered fd block answer = record {
    result = 0;
    block = λ q. if ltb q 512 then answer.args (4 + q) else block q;
    state = driver.close_device answer.state fd;
  }

  -- The second attempt, with the command for packet devices.
  unfoldable pub read_packet : (fd : ℕ) → (block : Memory) → Identified S → ReadMbr S
  unfolding delivered
  read_packet fd block first =
      let second = driver.drive_cmd first.state fd (write first.args 0 driver.win_pidentify) in
      if second.failed
      then (record { result = driver.errno second.state; block = block; state = second.state })
      else delivered fd block second

  -- readMBR
  unfoldable pub read_mbr : (name : List ℕ) → (block : Memory) → S → ReadMbr S
  unfolding start_args delivered read_packet
  read_mbr name block s =
      let (fd, s) = driver.open_device s name in
      elim fd [
        | none ↦ record { result = driver.errno s; block = block; state = s }
        | some n ↦
            let first = driver.drive_cmd s n start_args in
            if first.failed then read_packet n block first else delivered n block first
      ]

  -- The buffer behind 512 bytes is kept, and all of it unless the result is 0.
  unfoldable pub Keeps : Memory → ReadMbr S → Type 0
  Keeps block r =
      ((q : ℕ) → 512 ≤ q → r.block q ≡ block q) × ((r.result ≡ 0) ⊎ ((q : ℕ) → r.block q ≡ block q))

  delivered-Keeps :
      (fd : ℕ) (block : Memory) (a : Identified S) → Keeps block (delivered fd block a)
  unfolding delivered Keeps
  delivered-Keeps fd block a = (λ q le. ground arith, inl refl)

  read_packet-Keeps :
      (fd : ℕ) (block : Memory) (first : Identified S) → Keeps block (read_packet fd block first)
  unfolding read_packet Keeps
  read_packet-Keeps fd block first =
      let second = driver.drive_cmd first.state fd (write first.args 0 driver.win_pidentify) in
      elim second.failed
        as (λ b. Keeps block (
          if b
          then (record { result = driver.errno second.state; block = block; state = second.state })
          else delivered fd block second)) [
            | true ↦ (λ q le. refl, inr (λ q. refl))
            | false ↦ delivered-Keeps fd block second
          ]

  -- readMBR leaves the buffer behind 512 bytes alone, and all of it unless it returns 0.
  read_mbr-Keeps : (name : List ℕ) (block : Memory) (s : S) → Keeps block (read_mbr name block s)
  unfolding read_mbr Keeps
  read_mbr-Keeps name block s =
      let t = (driver.open_device s name).1 in
      elim (driver.open_device s name).0
        as (λ fd. Keeps block (elim fd [
          | none ↦ record { result = driver.errno t; block = block; state = t }
          | some n ↦
              let first = driver.drive_cmd t n start_args in
              if first.failed then read_packet n block first else delivered n block first
        ])) [
          | none ↦ (λ q le. refl, inr (λ q. refl))
          | some n ↦
              let first = driver.drive_cmd t n start_args in
              elim first.failed
                as (λ b.
                  Keeps block (if b then read_packet n block first else delivered n block first)) [
                    | true ↦ read_packet-Keeps n block first
                    | false ↦ delivered-Keeps n block first
                  ]
        ]
