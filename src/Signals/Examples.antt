-- ===== src/Signals/Examples.antt =====
-- Two runs of signalalarm/alarmmain.c.
use c_modules.Base.{arith, ℕ, ◌≡◌, ◌⊎◌, refl, none, some}
use c_modules.Signals.Alarm.{
  at_test, at_alarm, at_reset, Program, signal_handler, started, main_step, goes, ticks, fires,
  Runs, here, next,
}
use c_modules.Signals.Alarm.Again.{
  OnTime, begin, more, Reaches, OnTime-Reaches, stopped, signal_handler-late,
}

abbrev waiting : ℕ → Program
waiting n = record { place = at_test; timeup = 0; alarm = some n }

abbrev come : Program
come = record { place = at_test; timeup = 1; alarm = none }

-- Five seconds, then the handler.
come-OnTime : OnTime come
unfolding signal_handler
come-OnTime =
    more
      (more
        (more
          (more (more (more begin (ticks 4 refl refl) _) (ticks 3 refl refl) _) (ticks 2 refl refl)
            _)
          (ticks 1 refl refl) _)
        (ticks 0 refl refl) _)
      (fires refl refl) (ground arith)

OnTime-Reaches_example : Reaches come
OnTime-Reaches_example = OnTime-Reaches come come-OnTime

abbrev due : Program
due = record { place = at_reset; timeup = 1; alarm = some 0 }

abbrev handled : Program
handled = record { place = at_reset; timeup = 1; alarm = none }

-- main can stand before the reset until the alarm is due.
due-Runs : Runs started due
unfolding signal_handler main_step
due-Runs = next (ticks 4 refl refl) (
    next (ticks 3 refl refl) (
      next (ticks 2 refl refl) (
        next (ticks 1 refl refl) (
          next (ticks 0 refl refl) (
            next {q = come} (fires refl refl) (
              next {q = record come { place = at_alarm }} (goes refl) (
                next {q = record come { place = at_reset; alarm = some 5 }} (goes refl) (
                  next (ticks 4 refl refl) (
                    next (ticks 3 refl refl) (
                      next (ticks 2 refl refl)
                        (next (ticks 1 refl refl) (next (ticks 0 refl refl) here))))))))))))

signal_handler-late_example : (stopped ≡ handled) ⊎ (stopped ≡ stopped)
unfolding signal_handler main_step
signal_handler-late_example =
    signal_handler-late due handled stopped refl refl (next (goes refl) (next (goes refl) here))
