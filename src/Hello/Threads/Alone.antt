-- ===== src/Hello/Threads/Alone.antt =====
-- A call of hello-driver/hello.c whose thread is alone is the call of `Hello.Ioctl`.
use c_modules.Base.{
  inr, ℕ, zero, suc, ◌+◌, ◌<◌, ◌≤◌, ◌≡◌, refl, ap, ◌∙◌, sym, arith, true, false, Option, none, some,
  List, [], ◌∷◌, ◌++◌, ltb, length, get_or, ◌⊎◌, Memory, write, lt→ltb, le→ltb,
}
use mathlib.Core.List.{append-nil, append_assoc}
use c_modules.Hello.Ioctl.{HelloCodes, Pipe, returned, data_size, copy}
use c_modules.Hello.Files.{IoctlCall, ioctl}
use c_modules.Hello.Files.Runs.{IsCoded, write-done, read-done, copy-inside, copy-outside}
use c_modules.Hello.Threads.{
  Stage, outside, writes, reads, copying, collecting, answered, wrote, got, take_lock,
  start_command, store_byte, load_byte, advance_thread,
}

-- The `n` bytes from an address on.
unfoldable pub bytes_from : Memory → (address : ℕ) → (n : ℕ) → List ℕ
bytes_from m address zero = []
bytes_from m address (suc n) = m address ∷ bytes_from m (address + 1) n

after_step : Option (Stage × Pipe) → Stage × Pipe → Stage × Pipe
after_step none s = s
after_step (some next) s = next

-- `n` steps of a thread, where no other thread takes any.
unfoldable pub run_thread : ℕ → Stage × Pipe → Stage × Pipe
unfolding after_step
run_thread zero s = s
run_thread (suc n) s = run_thread n (after_step (advance_thread s.0 s.1) s)

stored : Memory → ℕ → List ℕ → Memory
stored m at [] = m
stored m at (c ∷ left) = stored (write m at c) (at + 1) left

length-bytes_from : (m : Memory) (a n : ℕ) → length (bytes_from m a n) ≡ n
unfolding bytes_from
length-bytes_from m a zero = refl
length-bytes_from m a (suc n) = ap suc (length-bytes_from m (a + 1) n)

copy-write :
    (m p : Memory) (at a n q : ℕ)
    → copy (write m at (p a)) (at + 1) p (a + 1) n q ≡ copy m at p a (suc n) q
copy-write m p at a n q = grind arith

stored-copy : (m p : Memory) (at a n q : ℕ) → stored m at (bytes_from p a n) q ≡ copy m at p a n q
unfolding stored bytes_from
stored-copy m p at a zero q = ground arith
stored-copy m p at a (suc n) q =
    stored-copy (write m at (p a)) p (at + 1) (a + 1) n q ∙ copy-write m p at a n q

run_thread-copying :
    (left : List ℕ) (at : ℕ) (pipe : Pipe)
    → at + length left ≤ 1024
    → run_thread (suc (suc (length left))) (copying left at, pipe) ≡ (
      answered (wrote pipe.len),
      record pipe { locked = false; bytes = stored pipe.bytes at left },
    )
unfolding run_thread after_step advance_thread store_byte stored
run_thread-copying [] at pipe le = refl
run_thread-copying (c ∷ left) at pipe le =
    ap (λ b. run_thread (suc (suc (length left))) (store_byte b c left at pipe))
      (lt→ltb at 1024 (omega arith))
    ∙ run_thread-copying left (at + 1) (record pipe { bytes = write pipe.bytes at c }) (omega arith)

run_thread-collecting :
    (n at : ℕ) (so_far : List ℕ) (pipe : Pipe)
    → at + n ≡ pipe.len
    → pipe.len ≤ 1024
    → run_thread (suc (suc n)) (collecting so_far at, pipe)
      ≡ (answered (got (so_far ++ bytes_from pipe.bytes at n)), record pipe { locked = false })
unfolding run_thread after_step advance_thread load_byte bytes_from
run_thread-collecting zero at so_far pipe e le =
    ap (λ b. run_thread 1 (load_byte b (ltb at data_size) so_far at pipe))
      (le→ltb at pipe.len (omega arith))
    ∙ ap (λ l. (answered (got l), record pipe { locked = false })) (sym (append-nil so_far))
run_thread-collecting (suc n) at so_far pipe e le =
    ap (λ b. run_thread (suc (suc n)) (load_byte b (ltb at data_size) so_far at pipe))
      (lt→ltb at pipe.len (omega arith))
    ∙ ap (λ b. run_thread (suc (suc n)) (load_byte true b so_far at pipe))
        (lt→ltb at 1024 (omega arith))
    ∙ run_thread-collecting n (at + 1) (so_far ++ (pipe.bytes at ∷ [])) pipe (omega arith) le
    ∙ ap (λ l. (answered (got l), record pipe { locked = false }))
        (append_assoc so_far (pipe.bytes at ∷ []) (bytes_from pipe.bytes (at + 1) n))

run_thread-writes :
    (message : List ℕ) (pipe : Pipe)
    → pipe.locked ≡ false
    → length message ≤ 1024
    → run_thread (suc (suc (suc (suc (length message))))) (outside (writes message), pipe) ≡ (
      answered (wrote (length message)),
      record { bytes = stored pipe.bytes 0 message; len = length message; locked = false },
    )
unfolding run_thread after_step advance_thread take_lock start_command
run_thread-writes message pipe free le =
    ap
      (λ b.
        run_thread (suc (suc (suc (length message))))
          (after_step (take_lock b (writes message) pipe) (outside (writes message), pipe)))
      free
    ∙ run_thread-copying message 0
        (record { bytes = pipe.bytes; len = length message; locked = true }) (omega arith)

run_thread-reads :
    (pipe : Pipe)
    → pipe.locked ≡ false
    → pipe.len ≤ 1024
    → run_thread (suc (suc (suc (suc pipe.len)))) (outside reads, pipe)
      ≡ (answered (got (bytes_from pipe.bytes 0 pipe.len)), record pipe { locked = false })
unfolding run_thread after_step advance_thread take_lock start_command
run_thread-reads pipe free le =
    ap
      (λ b.
        run_thread (suc (suc (suc pipe.len)))
          (after_step (take_lock b reads pipe) (outside reads, pipe)))
      free
    ∙ run_thread-collecting pipe.len 0 [] (record pipe { locked = true }) (omega arith) le

-- The text of the process that HELLO_WRITE names.
abbrev pub text_of : IoctlCall → List ℕ
text_of c = let t = c.process.transfer_at c.arg in bytes_from c.process.memory t.tx_buf t.len

-- `after` holds the text that the call names, over what the pipe held, and its mutex is free.
abbrev pub IsWritten : IoctlCall → (before after : Pipe) → Type 0
IsWritten c before after =
    let t = c.process.transfer_at c.arg in
    (after.len ≡ t.len)
    × (after.locked ≡ false)
    × ((k : ℕ) → k < t.len → after.bytes k ≡ c.process.memory (t.tx_buf + k))
    × ((q : ℕ) → t.len ≤ q → after.bytes q ≡ before.bytes q)

-- The bytes of the pipe stand at the address that the call names, and no other byte of its process
-- changes.
abbrev pub IsRead : IoctlCall → Pipe → (memory : Memory) → Type 0
IsRead c pipe memory =
    let t = c.process.transfer_at c.arg in
    ((k : ℕ) → k < pipe.len → memory (t.rx_buf + k) ≡ pipe.bytes k)
    × ((q : ℕ) → (q < t.rx_buf) ⊎ (t.rx_buf + pipe.len ≤ q) → memory q ≡ c.process.memory q)

-- The message is what the pipe holds.
abbrev pub IsMessageOf : Pipe → List ℕ → Type 0
IsMessageOf pipe message =
    (length message ≡ pipe.len) × ((k : ℕ) → k < pipe.len → get_or message k 0 ≡ pipe.bytes k)

get_or-bytes_from : (m : Memory) (a n k : ℕ) → k < n → get_or (bytes_from m a n) k 0 ≡ m (a + k)
unfolding bytes_from
get_or-bytes_from m a zero k lt = absurd (omega arith)
get_or-bytes_from m a (suc n) zero lt = ap m (omega arith)
get_or-bytes_from m a (suc n) (suc k) lt =
    get_or-bytes_from m (a + 1) n k (omega arith) ∙ ap m (omega arith)

copy-IsWritten :
    (c : IoctlCall) (before after : Pipe)
    → after.len ≡ (c.process.transfer_at c.arg).len
    → after.locked ≡ false
    → ((q : ℕ)
        → after.bytes q
          ≡ copy before.bytes 0 c.process.memory
              (c.process.transfer_at c.arg).tx_buf
              (c.process.transfer_at c.arg).len
              q)
    → IsWritten c before after
copy-IsWritten c before after len free bytes =
    let t = c.process.transfer_at c.arg in
    (
      len,
      free,
      λ k lt.
          bytes k
          ∙ ap (copy before.bytes 0 c.process.memory t.tx_buf t.len) {x = k} {y = 0 + k}
              (omega arith)
          ∙ copy-inside before.bytes 0 c.process.memory t.tx_buf t.len k lt,
      λ q le.
          bytes q
          ∙ copy-outside before.bytes 0 c.process.memory t.tx_buf t.len q (inr (omega arith)),
    )

module _ (codes : HelloCodes) (coded : IsCoded codes) where
  IsWritten-steps :
      (w : IoctlCall) (pipe : Pipe)
      → (w.minor < 2) × (w.req ≡ codes.hello_write)
      → pipe.locked ≡ false
      → (w.process.transfer_at w.arg).len ≤ 1024
      → w.process.reached (w.process.transfer_at w.arg).tx_buf (w.process.transfer_at w.arg).len
        ≡ (w.process.transfer_at w.arg).len
      → (after alone : Pipe) × (ioctl codes w pipe
          ≡ returned (w.process.transfer_at w.arg).len after w.process.memory)
        × (run_thread ((w.process.transfer_at w.arg).len + 4) (outside (writes (text_of w)), pipe)
            ≡ (answered (wrote (w.process.transfer_at w.arg).len), alone))
        × IsWritten w pipe after
        × IsWritten w pipe alone
  IsWritten-steps w pipe (lt, is) free fits reached =
      let t = w.process.transfer_at w.arg in
      let text = text_of w in
      let long : length text ≡ t.len = length-bytes_from w.process.memory t.tx_buf t.len in
      let fuel : t.len + 4 ≡ suc (suc (suc (suc (length text)))) = omega (arith, long) in
      let after : Pipe = record {
        bytes = copy pipe.bytes 0 w.process.memory t.tx_buf t.len;
        len = t.len;
        locked = false;
      } in
      let alone : Pipe = record { bytes = stored pipe.bytes 0 text; len = t.len; locked = false } in
      (
        after,
        alone,
        write-done codes coded w pipe lt is free fits reached,
        ap (λ n. run_thread n (outside (writes text), pipe)) fuel
            ∙ run_thread-writes text pipe free (omega (arith, long, fits))
            ∙ ap
                (λ n. (
                  answered (wrote n),
                  record { bytes = stored pipe.bytes 0 text; len = n; locked = false },
                ))
                long,
        copy-IsWritten w pipe after refl refl (λ q. refl),
        copy-IsWritten w pipe alone refl refl
            (stored-copy pipe.bytes w.process.memory 0 t.tx_buf t.len),
      )

  IsRead-steps :
      (r : IoctlCall) (pipe : Pipe)
      → (r.minor < 2) × (r.req ≡ codes.hello_read)
      → pipe.locked ≡ false
      → pipe.len ≤ 1024
      → r.process.reached (r.process.transfer_at r.arg).rx_buf pipe.len ≡ pipe.len
      → (memory : Memory) × (message : List ℕ) × (ioctl codes r pipe
          ≡ returned pipe.len pipe memory)
        × (run_thread (pipe.len + 4) (outside reads, pipe) ≡ (answered (got message), pipe))
        × IsRead r pipe memory
        × IsMessageOf pipe message
  IsRead-steps r pipe (lt, is) free le reached =
      let t = r.process.transfer_at r.arg in
      let fuel : pipe.len + 4 ≡ suc (suc (suc (suc pipe.len))) = omega arith in
      let same : record pipe { locked = false } ≡ pipe =
        ap (λ b. record pipe { locked = b }) (sym free) in
      (
        copy r.process.memory t.rx_buf pipe.bytes 0 pipe.len,
        bytes_from pipe.bytes 0 pipe.len,
        read-done codes coded r pipe lt is free le reached
            ∙ ap (λ p. returned pipe.len p (copy r.process.memory t.rx_buf pipe.bytes 0 pipe.len))
                same,
        ap (λ n. run_thread n (outside reads, pipe)) fuel
            ∙ run_thread-reads pipe free le
            ∙ ap (λ p. (answered (got (bytes_from pipe.bytes 0 pipe.len)), p)) same,
        (
          λ k lt.
              copy-inside r.process.memory t.rx_buf pipe.bytes 0 pipe.len k lt
              ∙ ap pipe.bytes {x = 0 + k} {y = k} (omega arith),
          λ q out. copy-outside r.process.memory t.rx_buf pipe.bytes 0 pipe.len q out,
        ),
        (
          length-bytes_from pipe.bytes 0 pipe.len,
          λ k lt.
              get_or-bytes_from pipe.bytes 0 pipe.len k lt
              ∙ ap pipe.bytes {x = 0 + k} {y = k} (omega arith),
        ),
      )

  -- On a pipe with a free mutex and at most 1024 bytes, with calls of documented codes whose memory
  -- can be reached: HELLO_WRITE of at most 1024 bytes through either device, and the steps of a
  -- thread that writes its text with no other between them, both return the text's length and leave
  -- the mutex free, that length, the bytes of the process in front and the old bytes behind them.
  -- HELLO_READ and the steps of a reading thread both leave the pipe as it was; the call puts the
  -- pipe's bytes at its address and changes no other byte, and the thread's message is these bytes.
  pub ioctl-run_thread :
      (w r : IoctlCall) (pipe : Pipe)
      → (w.minor < 2) × (w.req ≡ codes.hello_write)
      → (r.minor < 2) × (r.req ≡ codes.hello_read)
      → pipe.locked ≡ false
      → pipe.len ≤ 1024
      → (w.process.transfer_at w.arg).len ≤ 1024
      → w.process.reached (w.process.transfer_at w.arg).tx_buf (w.process.transfer_at w.arg).len
        ≡ (w.process.transfer_at w.arg).len
      → r.process.reached (r.process.transfer_at r.arg).rx_buf pipe.len ≡ pipe.len
      → ((after alone : Pipe) × (ioctl codes w pipe
            ≡ returned (w.process.transfer_at w.arg).len after w.process.memory)
          × (run_thread ((w.process.transfer_at w.arg).len + 4) (outside (writes (text_of w)), pipe)
              ≡ (answered (wrote (w.process.transfer_at w.arg).len), alone))
          × IsWritten w pipe after
          × IsWritten w pipe alone)
        × ((memory : Memory) × (message : List ℕ) × (ioctl codes r pipe
              ≡ returned pipe.len pipe memory)
            × (run_thread (pipe.len + 4) (outside reads, pipe) ≡ (answered (got message), pipe))
            × IsRead r pipe memory
            × IsMessageOf pipe message)
  ioctl-run_thread w r pipe is_w is_r free le fits reached_w reached_r =
      (IsWritten-steps w pipe is_w free fits reached_w, IsRead-steps r pipe is_r free le reached_r)
