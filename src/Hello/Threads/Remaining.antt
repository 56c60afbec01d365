-- ===== src/Hello/Threads/Remaining.antt =====
-- How long a call of hello-driver/hello.c still holds the mutex.
use c_modules.Base.{
  ℕ, suc, ◌+◌, ◌-◌, ◌<◌, ◌≡◌, inl, inr, refl, arith, Bool, true, false, Option, none, some, List,
  [], ◌∷◌, ltb, length, Option-cases,
}
use mathlib.Core.Path.{subst}
use c_modules.Hello.Ioctl.{Pipe, data_size}
use c_modules.Hello.Threads.{
  Task, writes, reads, unknown, refused, CallResult, Stage, outside, entered, copying, collecting,
  leaving, answered, past_data, start_command, store_byte, load_byte, advance_thread,
}
use c_modules.Hello.Threads.Whole.{IsIdle, IsActive}

-- How many steps a call in the mutex still takes.
unfoldable pub remaining : Stage → Pipe → ℕ
remaining (entered (writes message)) pipe = length message + 3
remaining (entered reads) pipe = pipe.len + 3
remaining (entered unknown) pipe = 3
remaining (entered refused) pipe = 3
remaining (copying left at) pipe = length left + 2
remaining (collecting so_far at) pipe = pipe.len - at + 2
remaining (leaving answer) pipe = 1
remaining (outside task) pipe = 0
remaining (answered answer) pipe = 0
remaining past_data pipe = 0

unfoldable pub IsBegun : Stage → Type 0
IsBegun (outside task) = ⊥
IsBegun (entered task) = Unit
IsBegun (copying left at) = Unit
IsBegun (collecting so_far at) = Unit
IsBegun (leaving answer) = Unit
IsBegun (answered answer) = Unit
IsBegun past_data = Unit

-- A step is there, it leaves less than `n` steps, and not outside.
unfoldable Falls : ℕ → Option (Stage × Pipe) → Type 0
unfolding remaining IsBegun
Falls n none = ⊥
Falls n (some next) = (remaining next.0 next.1 < n) × IsBegun next.0

load_byte-Falls :
    (more inside : Bool) (so_far : List ℕ) (at : ℕ) (pipe : Pipe)
    → ltb at pipe.len ≡ more
    → Falls (pipe.len - at + 2) (some (load_byte more inside so_far at pipe))
unfolding Falls load_byte remaining IsBegun
load_byte-Falls true true so_far at pipe m = (ground (arith, m), _)
load_byte-Falls true false so_far at pipe m = (omega arith, _)
load_byte-Falls false inside so_far at pipe m = (omega arith, _)

store_byte-Falls :
    (inside : Bool) (c : ℕ) (left : List ℕ) (at : ℕ) (pipe : Pipe)
    → Falls (suc (length left) + 2) (some (store_byte inside c left at pipe))
unfolding Falls store_byte remaining IsBegun
store_byte-Falls true c left at pipe = (omega arith, _)
store_byte-Falls false c left at pipe = (omega arith, _)

start_command-Falls :
    (task : Task) (pipe : Pipe)
    → Falls (remaining (entered task) pipe) (some (start_command task pipe))
unfolding Falls start_command remaining IsBegun
start_command-Falls (writes message) pipe = (omega arith, _)
start_command-Falls reads pipe = (omega arith, _)
start_command-Falls unknown pipe = (omega arith, _)
start_command-Falls refused pipe = (omega arith, _)

module _ (IsMessage : List ℕ → Type 0) (Refusing : Type 0) where
  advance_thread-Falls :
      (stage : Stage) (pipe : Pipe)
      → IsActive IsMessage Refusing stage pipe
      → Falls (remaining stage pipe) (advance_thread stage pipe)
  unfolding advance_thread Falls remaining IsActive IsBegun
  advance_thread-Falls (entered task) pipe a = start_command-Falls task pipe
  advance_thread-Falls (copying [] at) pipe a = (omega arith, _)
  advance_thread-Falls (copying (c ∷ left) at) pipe a =
      store_byte-Falls (ltb at data_size) c left at pipe
  advance_thread-Falls (collecting so_far at) pipe a =
      load_byte-Falls (ltb at pipe.len) (ltb at data_size) so_far at pipe refl
  advance_thread-Falls (leaving answer) pipe a = (omega arith, _)
  advance_thread-Falls (outside _) pipe a = elim a [ ]
  advance_thread-Falls (answered _) pipe a = elim a [ ]
  advance_thread-Falls past_data pipe a = elim a [ ]

  pub active_step :
      (stage : Stage) (pipe : Pipe)
      → IsActive IsMessage Refusing stage pipe
      → (next : Stage × Pipe) × (advance_thread stage pipe ≡ some next)
        × (remaining next.0 next.1 < remaining stage pipe)
        × IsBegun next.0
  unfolding Falls
  active_step stage pipe a = elim (Option-cases (advance_thread stage pipe)) [
    | inl e ↦ absurd (subst (Falls (remaining stage pipe)) e (advance_thread-Falls stage pipe a))
    | inr h ↦
        (let (next, e) = h in
          let (lt, b) =
            subst (Falls (remaining stage pipe)) e (advance_thread-Falls stage pipe a) in
          (next, e, lt, b))
  ]

  pub begun-answered :
      (stage : Stage)
      → IsBegun stage
      → IsIdle IsMessage Refusing stage
      → (answer : CallResult) × (stage ≡ answered answer)
  unfolding IsBegun IsIdle
  begun-answered (answered answer) b i = (answer, refl)
  begun-answered (outside _) b i = elim b [ ]
  begun-answered (entered _) b i = elim i [ ]
  begun-answered (copying left at) b i = elim i [ ]
  begun-answered (collecting so_far at) b i = elim i [ ]
  begun-answered (leaving _) b i = elim i [ ]
  begun-answered past_data b i = elim i [ ]
