-- ===== src/Hello/Threads/Examples.antt =====
-- Threads of the character driver that change between the bytes of a message.
use c_modules.Base.{
  ℕ, ◌≤◌, ◌≡◌, ◌⊎◌, inl, inr, refl, sym, write, Option, some, none, ap, arith, Bool, true, false,
  List, [], ◌∷◌, ◌==◌, if◌then◌else◌, length, codes, Bool-cases,
}
use mathlib.Core.Path.{subst}
use c_modules.Hello.Ioctl.{Pipe}
use c_modules.Hello.Threads.{
  Task, writes, reads, CallResult, Stage, outside, entered, copying, take_lock, start_command,
  store_byte, load_byte, answered, got, advance_thread, World, move, moves, Schedules, rests,
  goes_on,
}
use c_modules.Hello.Threads.Held.{first_bytes}
use c_modules.Hello.Threads.Whole.{IsCall}
use c_modules.Hello.Threads.Apart.{IsReady, IsApart, schedule-IsApart}
use c_modules.Hello.Threads.Ending.{schedule-CanEnd}

-- Nothing, "hi" or "bye".
abbrev IsGreeting : List ℕ → Type 0
IsGreeting m = (m ≡ []) ⊎ ((m ≡ codes "hi") ⊎ (m ≡ codes "bye"))

IsGreeting-short : (m : List ℕ) → IsGreeting m → length m ≤ 1024
IsGreeting-short m (inl e) = omega (arith, ap length e)
IsGreeting-short m (inr (inl e)) = omega (arith, ap length e)
IsGreeting-short m (inr (inr e)) = omega (arith, ap length e)

abbrev tasks : ℕ → Task
tasks i = if i == 0 then writes (codes "hi") else (if i == 1 then writes (codes "bye") else reads)

-- Two writers, and readers.
abbrev waiting_world : World
waiting_world = record {
  pipe = record { bytes = λ q. 0; len = 0; locked = false };
  stages = λ i. outside (tasks i);
}

abbrev moved : Option (Stage × Pipe) → ℕ → World → World
moved none i w = w
moved (some next) i w = move i next w

-- The world after the threads of the list each took a step, if they could.
abbrev turns : List ℕ → World → World
turns [] w = w
turns (i ∷ is) w = turns is (moved (advance_thread (w.stages i) w.pipe) i w)

-- A reader and a second writer that try to come in wait until the message is whole.
turns-reader :
    (turns
        (0 ∷ 0 ∷ 0 ∷ 2 ∷ 1 ∷ 0 ∷ 2 ∷ 0 ∷ 0 ∷ 2 ∷ 1 ∷ 2 ∷ 2 ∷ 2 ∷ 2 ∷ 2 ∷ [])
        waiting_world).stages
      2
    ≡ answered (got (codes "hi"))
unfolding advance_thread take_lock start_command store_byte load_byte
turns-reader = refl

later_task : (b : Bool) → IsCall IsGreeting ⊥ (if b then writes (codes "bye") else reads)
unfolding IsCall
later_task true = inr (inr refl)
later_task false = _

tasks-IsCall : (i : ℕ) → IsCall IsGreeting ⊥ (tasks i)
unfolding IsCall
tasks-IsCall i = elim (Bool-cases (i == 0)) [
  | inl e ↦
      subst
        (λ b.
          IsCall IsGreeting ⊥
            (if b then writes (codes "hi") else (if i == 1 then writes (codes "bye") else reads)))
        (sym e) (inr (inl refl))
  | inr e ↦
      subst
        (λ b.
          IsCall IsGreeting ⊥
            (if b then writes (codes "hi") else (if i == 1 then writes (codes "bye") else reads)))
        (sym e) (later_task (i == 1))
]

waiting-IsReady : IsReady IsGreeting ⊥ waiting_world
unfolding first_bytes
waiting-IsReady = record {
  message = inl refl;
  mutex = inl refl;
  waiting = λ i. (tasks i, refl, tasks-IsCall i);
}

-- Thread 0 is between the two bytes of its message.
abbrev one_byte : World
unfolding advance_thread
one_byte =
    move 0 (copying (codes "i") 1, record { bytes = write (λ q. 0) 0 b'h'; len = 2; locked = true })
      (move 0 (copying (codes "hi") 0, record { bytes = λ q. 0; len = 2; locked = true })
        (move 0 (entered (writes (codes "hi")), record { bytes = λ q. 0; len = 0; locked = true })
          waiting_world))

one_byte-Schedules : Schedules waiting_world one_byte
unfolding advance_thread take_lock start_command store_byte
one_byte-Schedules =
    goes_on (moves 0 _ refl refl)
      (goes_on (moves 0 _ refl refl) (goes_on (moves 0 _ refl refl) rests))

schedule-IsApart_example : IsApart IsGreeting ⊥ one_byte
schedule-IsApart_example =
    schedule-IsApart IsGreeting ⊥ IsGreeting-short waiting_world one_byte waiting-IsReady
      one_byte-Schedules

schedule-CanEnd_example :
    (u : World) × Schedules one_byte u × ((answer : CallResult) × (u.stages 7 ≡ answered answer))
schedule-CanEnd_example =
    schedule-CanEnd IsGreeting ⊥ (λ e. e) IsGreeting-short waiting_world one_byte 7 waiting-IsReady
      one_byte-Schedules
