-- ===== src/Timer.antt =====
-- libuzi/timer.c: the timer queue and the waitable timers.
pub mod Times
pub mod Queue
pub mod Lists
pub mod Waitable
mod Tests
