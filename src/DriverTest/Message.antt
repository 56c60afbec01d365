-- ===== src/DriverTest/Message.antt =====
-- A message that one run of driver-test/main.c writes through hello-driver and another reads.
use c_modules.Base.{
  length-append, ℕ, ◌+◌, ◌-◌, ◌<◌, ◌≤◌, ◌≡◌, inr, refl, ap, ◌∙◌, arith, List, [], ◌∷◌, ◌++◌, length,
  get_or, some, false, codes,
}
use c_modules.Hello.Ioctl.{HelloCodes, Pipe}
use c_modules.Hello.Files.{ioctl}
use c_modules.Hello.Files.Runs.{IsCoded, write-read}
use c_modules.DriverTest.{
  TestEnvironment, write_ioctl, read_ioctl, read_len, read_bytes, print_string, wrote, got,
  test_ended, run_test, driver_test, after_write, after_read, same_bytes,
}
use c_modules.DriverTest.Memories.{store_bytes-at, read_bytes-same, read_bytes-text, get_or-append}

-- A device that opens, and a block whose first `n` bytes a copy reaches.
pub record IsReady (env : TestEnvironment) (minor n : ℕ) : Type 0 where
  pub opened : env.opened ≡ some minor
  pub known : minor < 2
  pub reaches : env.reached env.block n ≡ n

driver_test-write :
    (header : HelloCodes) (env : TestEnvironment) (minor : ℕ) (device text : List ℕ) (pipe : Pipe)
    → env.opened ≡ some minor
    → driver_test header env (codes "w" ∷ device ∷ text ∷ []) pipe
      ≡ after_write (ioctl header (write_ioctl header env minor text) pipe)
unfolding driver_test run_test same_bytes
driver_test-write header env minor device text pipe e = rw e refl

driver_test-read :
    (header : HelloCodes) (env : TestEnvironment) (minor : ℕ) (device : List ℕ) (pipe : Pipe)
    → env.opened ≡ some minor
    → driver_test header env (codes "r" ∷ device ∷ []) pipe
      ≡ after_read env.block (ioctl header (read_ioctl header env minor) pipe)
unfolding driver_test run_test same_bytes
driver_test-read header env minor device pipe e = rw e refl

-- With documented codes, a free mutex and a text of at most 1024 bytes, the program run with "w" through
-- either device prints the length of the text. Run next with "r" through either device, it prints 1024
-- as the length, and as the string the text with what malloc's block holds behind it, up to a NUL that
-- neither the driver nor the program puts there.
pub driver_test-message :
    (header : HelloCodes) (w r : TestEnvironment) (minor minor' : ℕ) (device device' text : List ℕ)
    (pipe : Pipe)
    → IsCoded header
    → pipe.locked ≡ false
    → length text ≤ 1024
    → IsReady w minor (length text)
    → IsReady r minor' (length text)
    → (between after : Pipe) × (driver_test header w (codes "w" ∷ device ∷ text ∷ []) pipe
        ≡ test_ended (wrote (length text)) between)
      × (driver_test header r (codes "r" ∷ device' ∷ []) between
          ≡ test_ended
              (got read_len
                (print_string (
                  text ++ read_bytes r.memory (r.block + length text) (read_len + 1 - length text)))
                (length text))
              after)
      × (after.locked ≡ false)
unfolding after_write after_read write_ioctl read_ioctl
driver_test-message header w r minor minor' device device' text pipe coded free fits ready ready' =
    let (between, after, memory, wrote_it, read_it, inside, outside, unlocked) =
      write-read header coded (write_ioctl header w minor text) (read_ioctl header r minor') pipe
        ready.known refl ready'.known refl free fits ready.reaches ready'.reaches in
    let rest = read_len + 1 - length text in
    let holds : (k : ℕ) → k < length text → memory (r.block + k) ≡ get_or text k 0 = λ k lt.
      inside k lt
      ∙ store_bytes-at w.memory w.block (text ++ (0 ∷ [])) k
          (omega (arith, length-append text (0 ∷ [])))
      ∙ get_or-append text (0 ∷ []) k lt in
    let block : read_bytes memory r.block (read_len + 1)
        ≡ text ++ read_bytes r.memory (r.block + length text) rest =
      read_bytes-text memory r.block text (read_len + 1) rest (omega arith) holds
      ∙ ap (λ bs. text ++ bs)
          (read_bytes-same memory r.memory (r.block + length text) rest
            (λ q le. outside q (inr le))) in
    (
      between,
      after,
      driver_test-write header w minor device text pipe ready.opened ∙ ap after_write wrote_it,
      driver_test-read header r minor' device' between ready'.opened
          ∙ ap (after_read r.block) read_it
          ∙ ap (λ bs. test_ended (got read_len (print_string bs) (length text)) after) block,
      unlocked,
    )
