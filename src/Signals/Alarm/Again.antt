-- ===== src/Signals/Alarm/Again.antt =====
-- Whether the alarms of signalalarm/alarmmain.c go on.
use mathlib.Core.Path.{subst}
use mathlib.Core.Option.{some-injective, none-ne-some}
use c_modules.Base.{
  ==_iff, Bool-cases, eq→==, ℕ, zero, suc, ◌≡◌, ◌≢◌, ◌⊎◌, inl, inr, refl, ap, ◌∙◌, sym, ◌==◌,
  Option, none, some,
}
use c_modules.Signals.Alarm.{
  Place, at_test, at_alarm, at_reset, Program, sigalrm, signal_handler, started, main_step, Step,
  goes, ticks, fires, Runs, here, next,
}

-- An alarm that does not come between alarm(5) and `timeup = 0`.
abbrev pub IsInTime : {p q : Program} → Step p q → Type 0
IsInTime {p} (goes e) = Unit
IsInTime {p} (ticks n e e') = Unit
IsInTime {p} (fires e e') = p.place ≢ at_reset

pub data OnTime : Program → Type 0 where
  begin : OnTime started
  more : {p q : Program} → OnTime p → (s : Step p q) → IsInTime s → OnTime q

-- What keeps the alarms going.
abbrev IsAliveAt : Place → (timeup : ℕ) → Option ℕ → Type 0
IsAliveAt at_test timeup alarm = (timeup ≡ 1) ⊎ ((n : ℕ) × (alarm ≡ some n))
IsAliveAt at_alarm timeup alarm = timeup ≡ 1
IsAliveAt at_reset timeup alarm = (n : ℕ) × (alarm ≡ some n)

abbrev IsAlive : Program → Type 0
IsAlive p = IsAliveAt p.place p.timeup p.alarm

main_step-IsAlive :
    (place : Place) (timeup : ℕ) (alarm : Option ℕ)
    → IsAliveAt place timeup alarm
    → IsAlive (main_step (record { place = place; timeup = timeup; alarm = alarm }))
unfolding main_step
main_step-IsAlive at_test timeup alarm (inl e) = rw (eq→== timeup 1 e) e
main_step-IsAlive at_test timeup alarm (inr h) = elim (Bool-cases (timeup == 1)) [
  | inl e ↦ rw e ((==_iff timeup 1).0 e)
  | inr e ↦ rw e (inr h)
]
main_step-IsAlive at_alarm timeup alarm h = (5, refl)
main_step-IsAlive at_reset timeup alarm h = inr h

ticked-IsAlive :
    (place : Place) (timeup n : ℕ) (alarm : Option ℕ)
    → IsAliveAt place timeup alarm
    → IsAliveAt place timeup (some n)
ticked-IsAlive at_test timeup n alarm h = inr (n, refl)
ticked-IsAlive at_alarm timeup n alarm h = h
ticked-IsAlive at_reset timeup n alarm h = (n, refl)

fired-IsAlive : (place : Place) → place ≢ at_reset → IsAliveAt place 1 none
fired-IsAlive at_test ne = inl refl
fired-IsAlive at_alarm ne = refl
fired-IsAlive at_reset ne = absurd (ne refl)

Step-IsAlive : {p q : Program} → IsAlive p → (s : Step p q) → IsInTime s → IsAlive q
unfolding signal_handler
Step-IsAlive {p} h (goes e) i = subst IsAlive (sym e) (main_step-IsAlive p.place p.timeup p.alarm h)
Step-IsAlive {p} h (ticks n e e') i =
    subst IsAlive (sym e') (ticked-IsAlive p.place p.timeup n p.alarm h)
Step-IsAlive {p} h (fires e e') i = subst IsAlive (some-injective _ _ e') (fired-IsAlive p.place i)

OnTime-IsAlive : {p : Program} → OnTime p → IsAlive p
OnTime-IsAlive begin = inr (5, refl)
OnTime-IsAlive (more o s i) = Step-IsAlive (OnTime-IsAlive o) s i

-- A program that reaches alarm(5) again.
abbrev pub Reaches : Program → Type 0
Reaches p = (q : Program) × Runs p q × (q.place ≡ at_alarm)

first-Step : {p q : Program} → Step p q → Reaches q → Reaches p
first-Step s (r, runs, at) = (r, next s runs, at)

test-Reaches :
    (timeup : ℕ)
    → timeup ≡ 1
    → (alarm : Option ℕ) → Reaches (record { place = at_test; timeup = timeup; alarm = alarm })
unfolding main_step
test-Reaches timeup e alarm = (
  record { place = at_alarm; timeup = timeup; alarm = alarm },
  next (goes (rw (eq→== timeup 1 e) refl)) here,
  refl,
)

alarm-Reaches :
    (n timeup : ℕ) → Reaches (record { place = at_test; timeup = timeup; alarm = some n })
unfolding signal_handler
alarm-Reaches zero timeup = first-Step (fires refl refl) (test-Reaches 1 refl none)
alarm-Reaches (suc n) timeup = first-Step (ticks n refl refl) (alarm-Reaches n timeup)

at-Reaches :
    (place : Place) (timeup : ℕ) (alarm : Option ℕ)
    → IsAliveAt place timeup alarm
    → Reaches (record { place = place; timeup = timeup; alarm = alarm })
unfolding main_step
at-Reaches at_test timeup alarm (inl e) = test-Reaches timeup e alarm
at-Reaches at_test timeup alarm (inr (n, e)) =
    subst (λ a. Reaches (record { place = at_test; timeup = timeup; alarm = a })) (sym e)
      (alarm-Reaches n timeup)
at-Reaches at_alarm timeup alarm h = (_, here, refl)
at-Reaches at_reset timeup alarm (n, e) =
    subst (λ a. Reaches (record { place = at_reset; timeup = timeup; alarm = a })) (sym e)
      (first-Step (goes refl) (alarm-Reaches n 0))

-- While no alarm comes between alarm(5) and `timeup = 0`, main can always go on to the next alarm(5).
pub OnTime-Reaches : (p : Program) → OnTime p → Reaches p
OnTime-Reaches p o = at-Reaches p.place p.timeup p.alarm (OnTime-IsAlive o)

-- No alarm is set and none has come.
abbrev pub stopped : Program
stopped = record { place = at_test; timeup = 0; alarm = none }

-- The handler has run before the reset.
abbrev Late : Program → Type 0
Late p = (p.place ≡ at_reset) × (p.alarm ≡ none)

main_step-Late : (p : Program) → Late p → main_step p ≡ stopped
unfolding main_step
main_step-Late p l =
    ap (λ place. main_step (record { place = place; timeup = p.timeup; alarm = p.alarm })) l.0
    ∙ ap (λ alarm. record { place = at_test; timeup = 0; alarm = alarm }) l.1

Late-Step : {p q : Program} → Late p → Step p q → q ≡ stopped
Late-Step {p} l (goes e) = e ∙ main_step-Late p l
Late-Step l (ticks n e e') = absurd (none-ne-some (suc n) (sym l.1 ∙ e))
Late-Step l (fires e e') = absurd (none-ne-some 0 (sym l.1 ∙ e))

stopped-Step : {p q : Program} → p ≡ stopped → Step p q → q ≡ stopped
unfolding main_step
stopped-Step is (goes e) = e ∙ ap main_step is
stopped-Step is (ticks n e e') = absurd (none-ne-some (suc n) (sym (ap (λ p. p.alarm) is) ∙ e))
stopped-Step is (fires e e') = absurd (none-ne-some 0 (sym (ap (λ p. p.alarm) is) ∙ e))

stopped-Runs : {p q : Program} → p ≡ stopped → Runs p q → q ≡ stopped
stopped-Runs is here = is
stopped-Runs is (next s runs) = stopped-Runs (stopped-Step is s) runs

-- If the alarm's handler runs between alarm(5) and `timeup = 0`, main never comes to alarm(5) again:
-- after that reset it tests a timeup of 0 for ever, with no alarm set.
pub signal_handler-late :
    (p q r : Program)
    → p.place ≡ at_reset
    → signal_handler sigalrm p ≡ some q
    → Runs q r
    → (r ≡ q) ⊎ (r ≡ stopped)
unfolding signal_handler
signal_handler-late p q r at e here = inl refl
signal_handler-late p q r at e (next s runs) =
    let is = some-injective _ _ e in
    inr (
      stopped-Runs (Late-Step (ap (λ u. u.place) (sym is) ∙ at, ap (λ u. u.alarm) (sym is)) s) runs)
