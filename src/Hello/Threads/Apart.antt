-- ===== src/Hello/Threads/Apart.antt =====
-- Mutual exclusion in hello-driver/hello.c, and what readers see.
use c_modules.Base.{
  ℕ, ◌≤◌, ◌≡◌, ◌≢◌, ◌⊎◌, inl, inr, refl, ap, ◌∙◌, sym, arith, Bool, true, false, none, some, List,
  ◌==◌, if◌then◌else◌, length, Bool-cases, eq→==, ne→==,
}
use mathlib.Core.Path.{subst}
use mathlib.Core.Option.{none-ne-some}
use c_modules.Hello.Ioctl.{Pipe, data_size}
use c_modules.Hello.Threads.{
  take_lock, Task, Stage, outside, entered, copying, collecting, leaving, answered, past_data,
  advance_thread, World, move, moves, Schedules, rests, goes_on,
}
use c_modules.Hello.Threads.Whole.{
  held, IsCall, IsIdle, IsActive, IsWhole, quiet, busy, Enters, After, Continues,
  advance_thread-Enters, advance_thread-Continues,
}

-- Between mutex_lock and mutex_unlock.
unfoldable pub is_inside : Stage → Bool
is_inside (outside task) = false
is_inside (entered task) = true
is_inside (copying left at) = true
is_inside (collecting so_far at) = true
is_inside (leaving answer) = true
is_inside (answered answer) = false
is_inside past_data = false

module _ (IsMessage : List ℕ → Type 0) (Refusing : Type 0) where
  -- Every thread is before its call; the pipe holds a message; only where `Refusing` holds are calls
  -- refused or is the mutex taken.
  pub record IsReady (w : World) : Type 0 where
    pub message : IsMessage (held w.pipe)
    pub mutex : (w.pipe.locked ≡ false) ⊎ Refusing
    pub waiting :
        (i : ℕ) → (task : Task) × (w.stages i ≡ outside task) × IsCall IsMessage Refusing task

  -- Thread `holder` at most is between mutex_lock and mutex_unlock, with the mutex. Each other thread is
  -- before its call, or behind it with its answer: a message, or the length of one.
  abbrev pub IsApart : World → Type 0
  IsApart w =
      (holder : ℕ) × ((i : ℕ)
        → IsIdle IsMessage Refusing (w.stages i)
          ⊎ ((i ≡ holder) × (is_inside (w.stages i) ≡ true) × (w.pipe.locked ≡ true)))

  kept : (w : World) → (w.pipe.locked ≡ false) ⊎ Refusing → w.pipe.locked ≡ true → Refusing
  kept w (inl free) e = absurd (ground (arith, free, e))
  kept w (inr refusing) e = refusing

  pub IsReady-IsWhole : (w : World) → IsReady w → IsWhole IsMessage Refusing w
  unfolding IsIdle
  IsReady-IsWhole w r =
      quiet r.message (kept w r.mutex)
        (λ i. let (task, e, c) = r.waiting i in subst (IsIdle IsMessage Refusing) (sym e) c)

  pub move-IsIdle :
      (i : ℕ) (next : Stage × Pipe) (w : World)
      → ((j : ℕ) → j ≢ i → IsIdle IsMessage Refusing (w.stages j))
      → (j : ℕ) → j ≢ i
      → IsIdle IsMessage Refusing ((move i next w).stages j)
  move-IsIdle i next w idle j ne =
      subst (λ b. IsIdle IsMessage Refusing (if b then next.0 else w.stages j)) (sym (ne→== j i ne))
        (idle j ne)

  pub move-at : (i : ℕ) (next : Stage × Pipe) (w : World) → (move i next w).stages i ≡ next.0
  move-at i next w = ap (λ b. if b then next.0 else w.stages i) (eq→== i i refl)

  pub move-IsIdle-all :
      (i : ℕ) (next : Stage × Pipe) (w : World)
      → IsIdle IsMessage Refusing next.0
      → ((j : ℕ) → j ≢ i → IsIdle IsMessage Refusing (w.stages j))
      → (j : ℕ) → IsIdle IsMessage Refusing ((move i next w).stages j)
  move-IsIdle-all i next w at idle j = elim (Bool-cases (j == i)) [
    | inl e ↦ subst (λ b. IsIdle IsMessage Refusing (if b then next.0 else w.stages j)) (sym e) at
    | inr e ↦
        subst (λ b. IsIdle IsMessage Refusing (if b then next.0 else w.stages j)) (sym e)
          (idle j (ground (arith, e)))
  ]

  enters-IsWhole :
      (i : ℕ) (next : Stage × Pipe) (w : World)
      → IsActive IsMessage Refusing next.0 next.1
      → next.1.locked ≡ true
      → ((j : ℕ) → j ≢ i → IsIdle IsMessage Refusing (w.stages j))
      → IsWhole IsMessage Refusing (move i next w)
  enters-IsWhole i next w a l idle =
      busy i l (subst (λ s. IsActive IsMessage Refusing s next.1) (sym (move-at i next w)) a)
        (move-IsIdle i next w idle)

  After-IsWhole :
      (i : ℕ) (next : Stage × Pipe) (w : World)
      → After IsMessage Refusing next
      → ((j : ℕ) → j ≢ i → IsIdle IsMessage Refusing (w.stages j))
      → IsWhole IsMessage Refusing (move i next w)
  unfolding After
  After-IsWhole i next w (inl (a, l)) idle = enters-IsWhole i next w a l idle
  After-IsWhole i next w (inr (q, h, r)) idle = quiet h r (move-IsIdle-all i next w q idle)

  -- A thread that holds no mutex takes no step while another has it.
  idle-stops :
      (stage : Stage) (pipe : Pipe)
      → IsIdle IsMessage Refusing stage
      → pipe.locked ≡ true
      → advance_thread stage pipe ≡ none
  unfolding IsIdle advance_thread take_lock
  idle-stops (outside task) pipe c l = ap (λ b. take_lock b task pipe) l
  idle-stops (answered answer) pipe c l = refl
  idle-stops (entered _) pipe c l = elim c [ ]
  idle-stops (copying left at) pipe c l = elim c [ ]
  idle-stops (collecting so_far at) pipe c l = elim c [ ]
  idle-stops (leaving _) pipe c l = elim c [ ]
  idle-stops past_data pipe c l = elim c [ ]

  locked-stops :
      (w : World) (i : ℕ) (next : Stage × Pipe)
      → advance_thread (w.stages i) w.pipe ≡ some next
      → w.pipe.locked ≡ true
      → IsIdle IsMessage Refusing (w.stages i)
      → ⊥
  locked-stops w i next e l idle =
      none-ne-some next (sym (idle-stops (w.stages i) w.pipe idle l) ∙ e)

  active-inside :
      (stage : Stage) (pipe : Pipe)
      → IsActive IsMessage Refusing stage pipe
      → is_inside stage ≡ true
  unfolding IsActive is_inside
  active-inside (entered task) pipe a = refl
  active-inside (copying left at) pipe a = refl
  active-inside (collecting so_far at) pipe a = refl
  active-inside (leaving answer) pipe a = refl
  active-inside (outside _) pipe a = elim a [ ]
  active-inside (answered _) pipe a = elim a [ ]
  active-inside past_data pipe a = elim a [ ]

  IsWhole-IsApart : (w : World) → IsWhole IsMessage Refusing w → IsApart w
  IsWhole-IsApart w (quiet h r idle) = (0, λ i. inl (idle i))
  IsWhole-IsApart w (busy k l a idle) = (
    k,
    λ i. elim (Bool-cases (i == k)) [
      | inl e ↦
          (let s : i ≡ k = ground (arith, e) in
            inr (s, ap (λ i. is_inside (w.stages i)) s ∙ active-inside (w.stages k) w.pipe a, l))
      | inr e ↦ inl (idle i (ground (arith, e)))
    ],
  )

  module _ (short : (message : List ℕ) → IsMessage message → length message ≤ data_size) where
    move-IsWhole :
        (w : World) (i : ℕ) (next : Stage × Pipe)
        → advance_thread (w.stages i) w.pipe ≡ some next
        → IsWhole IsMessage Refusing w
        → IsWhole IsMessage Refusing (move i next w)
    unfolding Enters Continues
    move-IsWhole w i next e (quiet h r idle) =
        let (free, a, l) =
          subst (Enters IsMessage Refusing w.pipe) e
            (advance_thread-Enters IsMessage Refusing (w.stages i) w.pipe (idle i) h) in
        enters-IsWhole i next w a l (λ j ne. idle j)
    move-IsWhole w i next e (busy k l a idle) = elim (Bool-cases (i == k)) [
      | inl same ↦
          (let s : k ≡ i = ground (arith, same) in
            After-IsWhole i next w
              (subst (Continues IsMessage Refusing) e (
                advance_thread-Continues IsMessage Refusing short (w.stages i) w.pipe
                  (subst (λ k. IsActive IsMessage Refusing (w.stages k) w.pipe) s a) l))
              (subst (λ k. (j : ℕ) → j ≢ k → IsIdle IsMessage Refusing (w.stages j)) s idle))
      | inr other ↦ absurd (locked-stops w i next e l (idle i (ground (arith, other))))
    ]

    pub schedule-IsWhole :
        (w v : World) → Schedules w v → IsWhole IsMessage Refusing w → IsWhole IsMessage Refusing v
    schedule-IsWhole w v rests whole = whole
    schedule-IsWhole w v (goes_on {v = u} (moves i next e to) s) whole =
        schedule-IsWhole u v s
          (subst (IsWhole IsMessage Refusing) (sym to) (move-IsWhole w i next e whole))

    -- From a world where every thread waits with its call, whatever steps the scheduler lets the threads
    -- take: one thread at most is between mutex_lock and mutex_unlock and has the mutex; each other is
    -- before its call or has its answer, where what was read is a whole message of the set, of at most
    -- 1024 bytes, that the pipe held at first or a thread writes.
    pub schedule-IsApart : (w v : World) → IsReady w → Schedules w v → IsApart v
    schedule-IsApart w v r s = IsWhole-IsApart v (schedule-IsWhole w v s (IsReady-IsWhole w r))
