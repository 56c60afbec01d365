-- ===== src/Hello/Threads.antt =====
-- hello_zero_ioctl and hello_one_ioctl of hello-driver/hello.c in threads that run in any order. A
-- thread makes one call, through either device; the scheduler may change threads at every step, also
-- between two bytes of a copy. The lengths have at most 31 bits, and the memory that a call names can
-- be reached.
pub mod Held
pub mod Whole
pub mod Apart
pub mod Remaining
pub mod Ending
pub mod Alone
mod Examples
use c_modules.Base.{
  ℕ, ◌+◌, ◌≡◌, Bool, true, false, Option, none, some, List, [], ◌∷◌, ◌++◌, ltb, ◌==◌, if◌then◌else◌,
  length, write,
}
use c_modules.Hello.Ioctl.{Pipe, data_size}

-- A call: HELLO_WRITE of a message, HELLO_READ, a number without a command, or a request with another
-- type or a number above the largest.
pub data Task : Type 0 where
  writes : List ℕ → Task
  reads unknown refused : Task

-- What a call comes to: the length that was written, the message that was read, 0 or -ENOTTY.
pub data CallResult : Type 0 where
  wrote : ℕ → CallResult
  got : List ℕ → CallResult
  nothing not_tty : CallResult

-- Where a thread is: before mutex_lock, behind it, in the copy from the process to byte `at` on with
-- what is left of the message, in the copy to the process with what it has, before mutex_unlock,
-- behind the return, or past the end of `data`.
pub data Stage : Type 0 where
  outside : Task → Stage
  entered : Task → Stage
  copying : (left : List ℕ) (at : ℕ) → Stage
  collecting : (so_far : List ℕ) (at : ℕ) → Stage
  leaving : CallResult → Stage
  answered : CallResult → Stage
  past_data : Stage

-- mutex_lock
unfoldable pub take_lock : (locked : Bool) → Task → Pipe → Option (Stage × Pipe)
take_lock true task pipe = none
take_lock false task pipe = some (entered task, record pipe { locked = true })

-- The switch and the early returns, which keep the mutex.
unfoldable pub start_command : Task → Pipe → Stage × Pipe
start_command (writes message) pipe = (copying message 0, record pipe { len = length message })
start_command reads pipe = (collecting [] 0, pipe)
start_command unknown pipe = (leaving nothing, pipe)
start_command refused pipe = (answered not_tty, pipe)

-- A byte of `copy_from_user(pHelloDev->data, …)`.
unfoldable pub store_byte : (inside : Bool) → ℕ → List ℕ → (at : ℕ) → Pipe → Stage × Pipe
store_byte true c left at pipe =
    (copying left (at + 1), record pipe { bytes = write pipe.bytes at c })
store_byte false c left at pipe = (past_data, pipe)

-- A byte of `copy_to_user(…, pHelloDev->data, pHelloDev->len)`, or its end.
unfoldable pub load_byte : (more inside : Bool) → List ℕ → (at : ℕ) → Pipe → Stage × Pipe
load_byte true true so_far at pipe = (collecting (so_far ++ (pipe.bytes at ∷ [])) (at + 1), pipe)
load_byte true false so_far at pipe = (past_data, pipe)
load_byte false inside so_far at pipe = (leaving (got so_far), pipe)

-- The next step of a thread; `none` where it waits or has answered.
unfoldable pub advance_thread : Stage → Pipe → Option (Stage × Pipe)
unfolding take_lock start_command store_byte load_byte
advance_thread (outside task) pipe = take_lock pipe.locked task pipe
advance_thread (entered task) pipe = some (start_command task pipe)
advance_thread (copying [] at) pipe = some (leaving (wrote pipe.len), pipe)
advance_thread (copying (c ∷ left) at) pipe = some (store_byte (ltb at data_size) c left at pipe)
advance_thread (collecting so_far at) pipe =
    some (load_byte (ltb at pipe.len) (ltb at data_size) so_far at pipe)
advance_thread (leaving answer) pipe = some (answered answer, record pipe { locked = false })
advance_thread (answered answer) pipe = none
advance_thread past_data pipe = none

-- The pipe, and where each thread is.
pub record World : Type 0 where
  pub pipe : Pipe
  pub stages : ℕ → Stage

-- Thread `i` has come to another stage.
abbrev pub move : (i : ℕ) → Stage × Pipe → World → World
move i next w = record { pipe = next.1; stages = λ j. if j == i then next.0 else w.stages j }

-- A thread takes a step.
pub data ThreadStep (w v : World) : Type 0 where
  moves :
      (i : ℕ) (next : Stage × Pipe)
      → advance_thread (w.stages i) w.pipe ≡ some next
      → v ≡ move i next w
      → ThreadStep w v

-- The steps of a scheduler.
pub data Schedules : World → World → Type 0 where
  rests : {w : World} → Schedules w w
  goes_on : {w v u : World} → ThreadStep w v → Schedules v u → Schedules w u
