-- ===== src/Hello/Threads/Whole.antt =====
-- The mutex of hello-driver/hello.c under any order of the steps of its callers.
use c_modules.Base.{
  ℕ, suc, ◌+◌, ◌≤◌, ◌≡◌, ◌≢◌, ◌⊎◌, inl, inr, refl, ap, ◌∙◌, sym, arith, Bool, true, false, Option,
  none, some, List, [], ◌∷◌, ◌++◌, ltb, length, write,
}
use mathlib.Core.Path.{subst}
use mathlib.Core.List.{append-nil}
use c_modules.Hello.Ioctl.{Pipe, data_size}
use c_modules.Hello.Threads.{
  Task, writes, reads, unknown, refused, CallResult, wrote, got, nothing, not_tty, Stage, outside,
  entered, copying, collecting, leaving, answered, past_data, take_lock, start_command, store_byte,
  load_byte, advance_thread, World,
}
use c_modules.Hello.Threads.Held.{first_bytes, first_bytes-snoc, length-first_bytes}

-- The first `len` bytes of `data`.
abbrev pub held : Pipe → List ℕ
held pipe = first_bytes pipe.bytes pipe.len

-- Some calls write messages from a set, others are refused only where `Refusing` holds.
module _ (IsMessage : List ℕ → Type 0) (Refusing : Type 0) where
  unfoldable pub IsCall : Task → Type 0
  IsCall (writes message) = IsMessage message
  IsCall reads = Unit
  IsCall unknown = Unit
  IsCall refused = Refusing

  unfoldable pub IsAnswer : CallResult → Type 0
  IsAnswer (wrote n) = (message : List ℕ) × IsMessage message × (n ≡ length message)
  IsAnswer (got message) = IsMessage message
  IsAnswer nothing = Unit
  IsAnswer not_tty = Refusing

  -- A thread that does not hold the mutex.
  unfoldable pub IsIdle : Stage → Type 0
  unfolding IsCall IsAnswer
  IsIdle (outside task) = IsCall task
  IsIdle (answered answer) = IsAnswer answer
  IsIdle (entered task) = ⊥
  IsIdle (copying left at) = ⊥
  IsIdle (collecting so_far at) = ⊥
  IsIdle (leaving answer) = ⊥
  IsIdle past_data = ⊥

  -- The thread that holds it.
  unfoldable pub IsActive : Stage → Pipe → Type 0
  unfolding IsCall IsAnswer first_bytes
  IsActive (entered task) pipe = IsCall task × IsMessage (held pipe)
  IsActive (copying left at) pipe =
      IsMessage (first_bytes pipe.bytes at ++ left)
      × (pipe.len ≡ length (first_bytes pipe.bytes at ++ left))
  IsActive (collecting so_far at) pipe =
      (so_far ≡ first_bytes pipe.bytes at) × (at ≤ pipe.len) × IsMessage (held pipe)
  IsActive (leaving answer) pipe = IsAnswer answer × IsMessage (held pipe)
  IsActive (outside task) pipe = ⊥
  IsActive (answered answer) pipe = ⊥
  IsActive past_data pipe = ⊥

  -- Nobody holds the mutex, or a call that was refused has kept it; or thread `i` holds it.
  pub data IsWhole (w : World) : Type 0 where
    quiet :
        IsMessage (held w.pipe)
        → (w.pipe.locked ≡ true → Refusing)
        → ((i : ℕ) → IsIdle (w.stages i))
        → IsWhole w
    busy :
        (i : ℕ)
        → w.pipe.locked ≡ true
        → IsActive (w.stages i) w.pipe
        → ((j : ℕ) → j ≢ i → IsIdle (w.stages j))
        → IsWhole w

  -- What an idle thread's step leads to.
  unfoldable pub Enters : Pipe → Option (Stage × Pipe) → Type 0
  unfolding IsActive
  Enters pipe none = Unit
  Enters pipe (some next) = (pipe.locked ≡ false) × IsActive next.0 next.1 × (next.1.locked ≡ true)

  unfoldable pub After : Stage × Pipe → Type 0
  unfolding IsActive IsIdle
  After next =
      (IsActive next.0 next.1 × (next.1.locked ≡ true))
      ⊎ (IsIdle next.0 × IsMessage (held next.1) × (next.1.locked ≡ true → Refusing))

  unfoldable pub Continues : Option (Stage × Pipe) → Type 0
  unfolding After
  Continues none = Unit
  Continues (some next) = After next

  take_lock-Enters :
      (locked : Bool) (task : Task) (pipe : Pipe)
      → pipe.locked ≡ locked
      → IsCall task
      → IsMessage (held pipe)
      → Enters pipe (take_lock locked task pipe)
  unfolding take_lock Enters IsActive IsCall
  take_lock-Enters true task pipe e c h = _
  take_lock-Enters false task pipe e c h = (e, (c, h), refl)

  pub advance_thread-Enters :
      (stage : Stage) (pipe : Pipe)
      → IsIdle stage
      → IsMessage (held pipe)
      → Enters pipe (advance_thread stage pipe)
  unfolding advance_thread IsIdle Enters
  advance_thread-Enters (outside task) pipe c h = take_lock-Enters pipe.locked task pipe refl c h
  advance_thread-Enters (answered answer) pipe a h = _
  advance_thread-Enters (entered _) pipe c h = elim c [ ]
  advance_thread-Enters (copying left at) pipe c h = elim c [ ]
  advance_thread-Enters (collecting so_far at) pipe c h = elim c [ ]
  advance_thread-Enters (leaving _) pipe c h = elim c [ ]
  advance_thread-Enters past_data pipe c h = elim c [ ]

  start_command-After :
      (task : Task) (pipe : Pipe)
      → IsCall task
      → IsMessage (held pipe)
      → pipe.locked ≡ true
      → After (start_command task pipe)
  unfolding start_command After IsActive IsIdle IsCall IsAnswer first_bytes
  start_command-After (writes message) pipe c h l = inl ((c, refl), l)
  start_command-After reads pipe c h l = inl ((refl, omega arith, h), l)
  start_command-After unknown pipe c h l = inl ((_, h), l)
  start_command-After refused pipe c h l = inr (c, h, λ _. c)

  answered-After :
      (answer : CallResult) (pipe : Pipe)
      → IsAnswer answer
      → IsMessage (held pipe)
      → After (answered answer, record pipe { locked = false })
  unfolding After IsIdle
  answered-After answer pipe a h = inr (a, h, λ e. absurd (ground (arith, e)))

  wrote-After :
      (at : ℕ) (pipe : Pipe)
      → IsMessage (first_bytes pipe.bytes at ++ [])
      → pipe.len ≡ length (first_bytes pipe.bytes at ++ [])
      → pipe.locked ≡ true
      → After (leaving (wrote pipe.len), pipe)
  unfolding After IsActive IsAnswer
  wrote-After at pipe h e l =
      let n : at ≡ pipe.len = omega (arith, e, length-first_bytes pipe.bytes at []) in
      let same = append-nil (first_bytes pipe.bytes at) ∙ ap (first_bytes pipe.bytes) n in
      inl (((first_bytes pipe.bytes at ++ [], h, e), subst IsMessage same h), l)

  module _ (short : (message : List ℕ) → IsMessage message → length message ≤ data_size) where
    len-short : (pipe : Pipe) → IsMessage (held pipe) → pipe.len ≤ 1024
    len-short pipe h =
        let e : length (held pipe) ≡ pipe.len + 0 =
          ap length (sym (append-nil (held pipe))) ∙ length-first_bytes pipe.bytes pipe.len [] in
        let le = short (held pipe) h in omega (arith, e, le)

    store_byte-After :
        (inside : Bool) (c : ℕ) (left : List ℕ) (at : ℕ) (pipe : Pipe)
        → ltb at data_size ≡ inside
        → IsActive (copying (c ∷ left) at) pipe
        → pipe.locked ≡ true
        → After (store_byte inside c left at pipe)
    unfolding store_byte After IsActive IsIdle
    store_byte-After true c left at pipe i (h, e) l =
        let s : at + 1 ≡ suc at = omega arith in
        let next =
          ap (λ n. first_bytes (write pipe.bytes at c) n ++ left) s
          ∙ first_bytes-snoc pipe.bytes at c left in
        inl ((subst IsMessage (sym next) h, e ∙ ap length (sym next)), l)
    store_byte-After false c left at pipe i (h, e) l =
        let n = length-first_bytes pipe.bytes at (c ∷ left) in
        let le = short _ h in absurd (ground (arith, i, n, le))

    load_byte-After :
        (more inside : Bool) (so_far : List ℕ) (at : ℕ) (pipe : Pipe)
        → ltb at pipe.len ≡ more
        → ltb at data_size ≡ inside
        → IsActive (collecting so_far at) pipe
        → pipe.locked ≡ true
        → After (load_byte more inside so_far at pipe)
    unfolding load_byte After IsActive IsIdle IsAnswer first_bytes
    load_byte-After true true so_far at pipe m i (e, le, h) l =
        let s : suc at ≡ at + 1 = omega arith in
        inl (
          (
            ap (λ t. t ++ (pipe.bytes at ∷ [])) e ∙ ap (first_bytes pipe.bytes) s,
            ground (arith, m),
            h,
          ),
          l,
        )
    load_byte-After true false so_far at pipe m i (e, le, h) l =
        let short = len-short pipe h in absurd (ground (arith, m, i, short))
    load_byte-After false inside so_far at pipe m i (e, le, h) l =
        let s : at ≡ pipe.len = ground (arith, m, le) in
        inl ((subst IsMessage (sym (e ∙ ap (first_bytes pipe.bytes) s)) h, h), l)

    pub advance_thread-Continues :
        (stage : Stage) (pipe : Pipe)
        → IsActive stage pipe
        → pipe.locked ≡ true
        → Continues (advance_thread stage pipe)
    unfolding advance_thread Continues IsActive
    advance_thread-Continues (entered task) pipe (c, h) l = start_command-After task pipe c h l
    advance_thread-Continues (copying [] at) pipe (h, e) l = wrote-After at pipe h e l
    advance_thread-Continues (copying (c ∷ left) at) pipe a l =
        store_byte-After (ltb at data_size) c left at pipe refl a l
    advance_thread-Continues (collecting so_far at) pipe a l =
        load_byte-After (ltb at pipe.len) (ltb at data_size) so_far at pipe refl refl a l
    advance_thread-Continues (leaving answer) pipe (a, h) l = answered-After answer pipe a h
    advance_thread-Continues (outside _) pipe a l = elim a [ ]
    advance_thread-Continues (answered _) pipe a l = elim a [ ]
    advance_thread-Continues past_data pipe a l = elim a [ ]
