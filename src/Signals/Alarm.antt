-- ===== src/Signals/Alarm.antt =====
-- The main of signalalarm/alarmmain.c: a loop that sets an alarm again when its handler says so.
pub mod Again
use c_modules.Base.{ℕ, zero, suc, ◌≡◌, ◌==◌, if◌then◌else◌, Option, none, some}

-- Where main is: before the test of timeup, before alarm(5), before `timeup = 0`.
pub data Place : Type 0 where
  at_test at_alarm at_reset : Place

-- The seconds to the alarm, `none` without one, are the kernel's.
pub record Program : Type 0 where
  pub place : Place
  pub timeup : ℕ
  pub alarm : Option ℕ

pub data Signo : Type 0 where
  sigalrm sigint other_signal : Signo

-- SignalHandler: `none` is exit(1). alarm(0) takes an alarm back.
unfoldable pub signal_handler : Signo → Program → Option Program
signal_handler sigalrm p = some (record p { alarm = none; timeup = 1 })
signal_handler sigint p = none
signal_handler other_signal p = some p

-- main up to the loop.
abbrev pub started : Program
started = record { place = at_test; timeup = 0; alarm = some 5 }

-- The next of main's three steps.
unfoldable pub main_step : Program → Program
main_step p = elim p.place [
  | at_test ↦ if p.timeup == 1 then record p { place = at_alarm } else p
  | at_alarm ↦ record p { place = at_reset; alarm = some 5 }
  | at_reset ↦ record p { place = at_test; timeup = 0 }
]

-- What can happen next: main goes on, a second passes, or the alarm is due and its handler runs.
pub data Step (p q : Program) : Type 0 where
  goes : q ≡ main_step p → Step p q
  ticks : (n : ℕ) → p.alarm ≡ some (suc n) → q ≡ record p { alarm = some n } → Step p q
  fires :
      p.alarm ≡ some zero → signal_handler sigalrm (record p { alarm = none }) ≡ some q → Step p q

pub data Runs : Program → Program → Type 0 where
  here : {p : Program} → Runs p p
  next : {p q r : Program} → Step p q → Runs q r → Runs p r
