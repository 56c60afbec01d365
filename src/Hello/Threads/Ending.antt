-- ===== src/Hello/Threads/Ending.antt =====
-- A scheduler of hello-driver/hello.c can bring every call to its end while no request is refused.
use c_modules.Base.{
  ℕ, zero, suc, ◌≤◌, ◌≡◌, ◌≢◌, inl, inr, refl, ap, ◌∙◌, sym, arith, true, false, some, List, length,
  Bool-cases,
}
use mathlib.Core.Path.{subst}
use c_modules.Hello.Ioctl.{Pipe, data_size}
use c_modules.Hello.Threads.{
  CallResult, Stage, outside, entered, copying, collecting, leaving, answered, past_data, take_lock,
  advance_thread, World, move, moves, Schedules, rests, goes_on,
}
use c_modules.Hello.Threads.Whole.{
  held, IsIdle, IsActive, IsWhole, quiet, busy, After, Continues, advance_thread-Continues,
}
use c_modules.Hello.Threads.Remaining.{remaining, IsBegun, active_step, begun-answered}
use c_modules.Hello.Threads.Apart.{
  IsReady, IsReady-IsWhole, schedule-IsWhole, move-IsIdle-all, move-IsIdle, move-at,
}

Schedules-trans : {w v u : World} → Schedules w v → Schedules v u → Schedules w u
Schedules-trans rests s = s
Schedules-trans (goes_on step r) s = goes_on step (Schedules-trans r s)

module _ (IsMessage : List ℕ → Type 0) (Refusing : Type 0) where
  -- Nobody holds the mutex.
  record IsFree (w : World) : Type 0 where
    message : IsMessage (held w.pipe)
    unlocked : w.pipe.locked ≡ false
    idle : (i : ℕ) → IsIdle IsMessage Refusing (w.stages i)

  -- From `w` thread `i` can come to its end, and nobody holds the mutex then.
  abbrev CanEnd : World → ℕ → Type 0
  CanEnd w i =
      (u : World) × Schedules w u
      × IsFree u
      × ((answer : CallResult) × (u.stages i ≡ answered answer))

  earlier-CanEnd :
      (w : World) (i j : ℕ) (next : Stage × Pipe)
      → advance_thread (w.stages j) w.pipe ≡ some next
      → CanEnd (move j next w) i
      → CanEnd w i
  earlier-CanEnd w i j next e (u, s, free, ends) = (u, goes_on (moves j next e refl) s, free, ends)

  module _ (never : ¬ Refusing)
      (short : (message : List ℕ) → IsMessage message → length message ≤ data_size) where
    open_mutex : (pipe : Pipe) → (pipe.locked ≡ true → Refusing) → pipe.locked ≡ false
    open_mutex pipe r = elim (Bool-cases pipe.locked) [ inl e ↦ absurd (never (r e)) | inr e ↦ e ]

    last-CanEnd :
        (w : World) (i : ℕ) (next : Stage × Pipe)
        → IsBegun next.0
        → IsIdle IsMessage Refusing next.0
        → IsMessage (held next.1)
        → (next.1.locked ≡ true → Refusing)
        → ((j : ℕ) → j ≢ i → IsIdle IsMessage Refusing (w.stages j))
        → CanEnd (move i next w) i
    last-CanEnd w i next b q h r idle =
        let (answer, e) = begun-answered IsMessage Refusing next.0 b q in
        (
          move i next w,
          rests,
          record {
            message = h;
            unlocked = open_mutex next.1 r;
            idle = move-IsIdle-all IsMessage Refusing i next w q idle;
          },
          (answer, move-at IsMessage Refusing i next w ∙ e),
        )

    continued-CanEnd :
        (n : ℕ) (w : World) (i : ℕ) (next : Stage × Pipe)
        → ((u : World)
            → u.pipe.locked ≡ true
            → IsActive IsMessage Refusing (u.stages i) u.pipe
            → ((j : ℕ) → j ≢ i → IsIdle IsMessage Refusing (u.stages j))
            → remaining (u.stages i) u.pipe ≤ n
            → CanEnd u i)
        → After IsMessage Refusing next
        → IsBegun next.0
        → ((j : ℕ) → j ≢ i → IsIdle IsMessage Refusing (w.stages j))
        → remaining next.0 next.1 ≤ n
        → CanEnd (move i next w) i
    unfolding After
    continued-CanEnd n w i next later (inl (a, l)) b idle le =
        let at = sym (move-at IsMessage Refusing i next w) in
        later (move i next w) l (subst (λ s. IsActive IsMessage Refusing s next.1) at a)
          (move-IsIdle IsMessage Refusing i next w idle) (subst (λ s. remaining s next.1 ≤ n) at le)
    continued-CanEnd n w i next later (inr (q, h, r)) b idle le = last-CanEnd w i next b q h r idle

    busy-CanEnd :
        (n : ℕ) (w : World) (i : ℕ)
        → w.pipe.locked ≡ true
        → IsActive IsMessage Refusing (w.stages i) w.pipe
        → ((j : ℕ) → j ≢ i → IsIdle IsMessage Refusing (w.stages j))
        → remaining (w.stages i) w.pipe ≤ n
        → CanEnd w i
    unfolding Continues
    busy-CanEnd zero w i l a idle le =
        let (next, e, lt, b) = active_step IsMessage Refusing (w.stages i) w.pipe a in
        absurd (omega (arith, lt, le))
    busy-CanEnd (suc n) w i l a idle le =
        let (next, e, lt, b) = active_step IsMessage Refusing (w.stages i) w.pipe a in
        let after =
          subst (Continues IsMessage Refusing) e
            (advance_thread-Continues IsMessage Refusing short (w.stages i) w.pipe a l) in
        earlier-CanEnd w i i next e (
          continued-CanEnd n w i next (λ u l a idle le. busy-CanEnd n u i l a idle le) after b idle
            (omega (arith, lt, le)))

    idle-CanEnd : (w : World) (i : ℕ) → IsFree w → (stage : Stage) → w.stages i ≡ stage → CanEnd w i
    unfolding IsIdle advance_thread take_lock IsActive IsBegun After
    idle-CanEnd w i free (answered answer) e = (w, rests, free, (answer, e))
    idle-CanEnd w i free (outside task) e =
        let c = subst (IsIdle IsMessage Refusing) e (free.idle i) in
        let next : Stage × Pipe = (entered task, record w.pipe { locked = true }) in
        let step : advance_thread (w.stages i) w.pipe ≡ some next =
          ap (λ s. advance_thread s w.pipe) e ∙ ap (λ b. take_lock b task w.pipe) free.unlocked in
        earlier-CanEnd w i i next step (
          continued-CanEnd (remaining next.0 next.1) w i next
            (λ u l a idle le. busy-CanEnd (remaining next.0 next.1) u i l a idle le)
            (inl ((c, free.message), refl)) _ (λ j ne. free.idle j) (omega arith))
    idle-CanEnd w i free (entered t) e = absurd (subst (IsIdle IsMessage Refusing) e (free.idle i))
    idle-CanEnd w i free (copying l at) e =
        absurd (subst (IsIdle IsMessage Refusing) e (free.idle i))
    idle-CanEnd w i free (collecting t at) e =
        absurd (subst (IsIdle IsMessage Refusing) e (free.idle i))
    idle-CanEnd w i free (leaving a) e = absurd (subst (IsIdle IsMessage Refusing) e (free.idle i))
    idle-CanEnd w i free past_data e = absurd (subst (IsIdle IsMessage Refusing) e (free.idle i))

    -- Thread `i` may enter at once.
    free-CanEnd : (w : World) (i : ℕ) → IsFree w → CanEnd w i
    free-CanEnd w i free = idle-CanEnd w i free (w.stages i) refl

    -- The thread that holds the mutex comes to its end first.
    whole-CanEnd : (w : World) (i : ℕ) → IsWhole IsMessage Refusing w → CanEnd w i
    whole-CanEnd w i (quiet h r idle) =
        free-CanEnd w i (record { message = h; unlocked = open_mutex w.pipe r; idle = idle })
    whole-CanEnd w i (busy k l a idle) =
        let (u, s, free, ends) =
          busy-CanEnd (remaining (w.stages k) w.pipe) w k l a idle (omega arith) in
        let (v, t, free', ends') = free-CanEnd u i free in (v, Schedules-trans s t, free', ends')

    -- While no call is refused and messages have at most 1024 bytes, from wherever a scheduler has come to
    -- it can go on so that thread `i` comes to the end of its call.
    pub schedule-CanEnd :
        (w v : World) (i : ℕ)
        → IsReady IsMessage Refusing w
        → Schedules w v
        → (u : World) × Schedules v u × ((answer : CallResult) × (u.stages i ≡ answered answer))
    schedule-CanEnd w v i r s =
        let whole =
          schedule-IsWhole IsMessage Refusing short w v s
            (IsReady-IsWhole IsMessage Refusing w r) in
        let (u, t, free, ends) = whole-CanEnd v i whole in (u, t, ends)
