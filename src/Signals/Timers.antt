-- ===== src/Signals/Timers.antt =====
-- SignalHandler1 and SetTimer of signalalarm/alarmmain.c, and the functions of signalalarm/signal.c.
use c_modules.Base.{
  ℕ, ◌+◌, ◌*◌, ◌/◌, ◌%◌, ◌<◌, ◌≡◌, Bool, true, false, ◌==◌, if◌then◌else◌, Option, none, some, List,
  [], ◌∷◌, arith,
}

-- A time of seconds and a part of a second, in ns (itimerspec) or us (itimerval).
pub record TimeParts : Type 0 where
  pub seconds : ℕ
  pub fraction : ℕ

-- The time to the first signal, and between the next ones.
pub record TimerSetting : Type 0 where
  pub value : TimeParts
  pub interval : TimeParts

-- What timer_create and timer_settime give.
pub record TimerAnswers : Type 0 where
  pub created : Option ℕ
  pub settable : Bool

-- SetTimer's result, `none` for -1, and the setting given to timer_settime.
pub record TimerSet : Type 0 where
  pub tid : Option ℕ
  pub setting : Option TimerSetting

-- The parameter that the source calls sec is in ms.
unfoldable pub millis : (unit sec : ℕ) → TimeParts
millis unit sec = record { seconds = sec / 1000; fraction = (sec % 1000) * unit }

-- SetTimer: where timer_settime fails the timer stays, and its number is returned all the same.
unfoldable pub set_timer : TimerAnswers → (sec mode : ℕ) → TimerSet
unfolding millis
set_timer answers sec mode = elim answers.created [
  | none ↦ record { tid = none; setting = none }
  | some tid ↦ record {
    tid = some tid;
    setting = some (record {
      value = millis 1000000 sec;
      interval = if mode == 1 then millis 1000000 sec else record { seconds = 0; fraction = 0 };
    });
  }
]

unfoldable pub signal_timer_start : (msec : ℕ) → TimerSetting
unfolding millis
signal_timer_start msec = record { value = millis 1000 msec; interval = millis 1000 msec }

unfoldable pub signal_timer_stop : TimerSetting
signal_timer_stop = record {
  value = record { seconds = 0; fraction = 0 };
  interval = record { seconds = 0; fraction = 0 };
}

-- The signals that the two programs name.
pub data Signal : Type 0 where
  sigusr1 sigalrm sigint sigterm sigtimer unnamed : Signal

-- SignalHandler1: timeup behind it, and `none` where it ends the program.
unfoldable pub signal_handler1 : Signal → (timeup : ℕ) → Option ℕ
signal_handler1 sigalrm timeup = some 1
signal_handler1 sigint timeup = none
signal_handler1 sigtimer timeup = some 1
signal_handler1 signo timeup = some timeup

-- registerSignal: the signals that are blocked, for sigwait to take.
unfoldable pub register_signal : List Signal
register_signal = sigint ∷ sigusr1 ∷ sigalrm ∷ sigterm ∷ []

-- signalHandle: whether the program goes on.
unfoldable pub signal_handle : Signal → Bool
signal_handle sigint = false
signal_handle sig = true

-- The loop of signal.c over the signals that waitSignal gives: what is left of them at exit(0), `none`
-- while it waits for another.
unfoldable pub signal_loop : List Signal → Option (List Signal)
unfolding signal_handle
signal_loop [] = none
signal_loop (sig ∷ sigs) =
    let rest = signal_loop sigs in if signal_handle sig then rest else some sigs

-- A time in ms that is not negative has parts that timer_settime and setitimer allow, and together
-- they are that time.
pub millis-time :
    (sec : ℕ)
    → ((millis 1000000 sec).fraction < 1000000000)
      × ((millis 1000000 sec).seconds * 1000000000 + (millis 1000000 sec).fraction ≡ sec * 1000000)
      × ((millis 1000 sec).fraction < 1000000)
      × ((millis 1000 sec).seconds * 1000000 + (millis 1000 sec).fraction ≡ sec * 1000)
unfolding millis
millis-time sec = (omega arith, omega arith, omega arith, omega arith)
