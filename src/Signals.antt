-- ===== src/Signals.antt =====
-- signalalarm: timers and the signals that they raise. alarmmain.c and signal.c are two programs.
pub mod Alarm
pub mod Timers
mod Examples
