-- ===== src/Hello/Examples.antt =====
-- Runs of the character driver, and its theorems at concrete processes.
use c_modules.Base.{
  ℕ, ◌+◌, ◌/◌, ◌%◌, ◌<◌, ◌≤◌, ◌≡◌, ◌⊎◌, inr, refl, true, false, List, [], ◌∷◌, arith, codes, Memory,
  get_or, length, some, none,
}
use c_modules.Hello.Ioctl.{HelloCodes, Process, Pipe, returned, waits, enotty}
use c_modules.Hello.Files.{IoctlCall, ioctl, run, finished, stopped}
use c_modules.Hello.Files.Runs.{IsCoded, write-read}
use c_modules.Hello.Threads.{outside, writes, reads, answered, wrote, got}
use c_modules.Hello.Threads.Alone.{
  run_thread, text_of, IsWritten, IsRead, IsMessageOf, ioctl-run_thread,
}
use c_modules.Hello.Files.Stops.{IsGood, IsProper, run-refused, run-IsGood}
use c_modules.Hello.Install.{Call, Answers, hello_init, hello_exit, installed, failed}
use c_modules.Hello.Install.Ledger.{
  settle, nothing, everything, hello_init-settle, hello_init-misuse,
}

-- The codes of Linux: the type stands in the second byte of a request, the number in the first.
abbrev linux : HelloCodes
linux = record {
  ioc_type = λ req. req / 256 % 256;
  ioc_nr = λ req. req % 256;
  hello_write = 0xC0186101;
  hello_read = 0xC0186102;
}

linux-IsCoded : IsCoded linux
linux-IsCoded = record {
  write_type = refl;
  write_nr = refl;
  read_type = refl;
  read_nr = refl;
  apart = λ e. absurd (omega (arith, e));
}

-- The text "hi" at address 100, and room at 200.
abbrev process : ℕ → Process
process len = record {
  memory = λ q. get_or (codes "hi") q 0;
  transfer_at = λ arg. record { len = len; tx_buf = 0; rx_buf = 200 };
  reached = λ address n. n;
}

abbrev free_pipe : Pipe
free_pipe = record { bytes = λ q. 0; len = 0; locked = false }

abbrev write_call : ℕ → IoctlCall
write_call len = record { minor = 0; process = process len; req = 0xC0186101; arg = 7 }

abbrev read_call : IoctlCall
read_call = record { minor = 1; process = process 0; req = 0xC0186102; arg = 7 }

-- Number 9 is above the largest that the driver takes.
abbrev bad_call : IoctlCall
bad_call = record { minor = 1; process = process 0; req = 0x6109; arg = 7 }

write-read_example :
    (between after : Pipe) × (memory : Memory) × (ioctl linux (write_call 2) free_pipe
      ≡ returned 2 between (process 2).memory)
    × (ioctl linux read_call between ≡ returned 2 after memory)
    × ((k : ℕ) → k < 2 → memory (200 + k) ≡ (process 2).memory (0 + k))
    × ((q : ℕ) → (q < 200) ⊎ (200 + 2 ≤ q) → memory q ≡ (process 0).memory q)
    × (after.locked ≡ false)
write-read_example =
    write-read linux linux-IsCoded (write_call 2) read_call free_pipe (omega arith) refl
      (omega arith) refl refl (omega arith) refl refl

run-refused_example :
    run linux (bad_call ∷ write_call 2 ∷ read_call ∷ []) free_pipe ≡ stopped (enotty ∷ []) waits
run-refused_example =
    run-refused linux bad_call (write_call 2) (read_call ∷ []) free_pipe (omega arith)
      (inr (omega arith)) (omega arith) refl

write-IsProper : IsProper linux (write_call 2)
write-IsProper = record {
  known = record { magic = refl; number = omega arith };
  short = omega arith;
  reach = λ address n. omega arith;
}

read-IsProper : IsProper linux read_call
read-IsProper = record {
  known = record { magic = refl; number = omega arith };
  short = omega arith;
  reach = λ address n. omega arith;
}

run-IsGood_example :
    (results : List ℕ) × (after : Pipe) × (run linux (write_call 2 ∷ read_call ∷ []) free_pipe
      ≡ finished results after)
    × (length results ≡ 2)
    × IsGood after
run-IsGood_example =
    run-IsGood linux (write_call 2 ∷ read_call ∷ []) free_pipe (write-IsProper, (read-IsProper, tt))
      (record { free = refl; fits = omega arith })

-- The class cannot be made.
abbrev no_class : Answers
no_class = record { allocated = true; alloc_ret = 0; cdev_err = 0; class_made = false }

hello_init-settle_example :
    ((calls : List Call) × (hello_init no_class ≡ installed calls)
      × (settle calls nothing ≡ some everything)
      × (settle hello_exit everything ≡ some nothing))
    ⊎ ((calls : List Call) × (hello_init no_class ≡ failed calls)
        × (settle calls nothing ≡ some nothing))
hello_init-settle_example = hello_init-settle no_class refl refl

abbrev no_region : Answers
no_region = record { allocated = true; alloc_ret = 12; cdev_err = 0; class_made = true }

hello_init-misuse_example :
    (calls : List Call) × (hello_init no_region ≡ failed calls) × (settle calls nothing ≡ none)
hello_init-misuse_example = hello_init-misuse no_region refl (λ e. absurd (omega (arith, e)))

-- A pipe with a longer message than the one that is written.
abbrev full_pipe : Pipe
full_pipe = record { bytes = λ q. get_or (codes "bye") q 0; len = 3; locked = false }

ioctl-run_thread_example :
    ((after alone : Pipe) × (ioctl linux (write_call 2) full_pipe
        ≡ returned 2 after (process 2).memory)
      × (run_thread 6 (outside (writes (text_of (write_call 2))), full_pipe)
          ≡ (answered (wrote 2), alone))
      × IsWritten (write_call 2) full_pipe after
      × IsWritten (write_call 2) full_pipe alone)
    × ((memory : Memory) × (message : List ℕ) × (ioctl linux read_call full_pipe
          ≡ returned 3 full_pipe memory)
        × (run_thread 7 (outside reads, full_pipe) ≡ (answered (got message), full_pipe))
        × IsRead read_call full_pipe memory
        × IsMessageOf full_pipe message)
ioctl-run_thread_example =
    ioctl-run_thread linux linux-IsCoded (write_call 2) read_call full_pipe (omega arith, refl)
      (omega arith, refl) refl (omega arith) (omega arith) refl refl
