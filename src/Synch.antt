-- ===== src/Synch.antt =====
-- The synchronization objects behind a HANDLE: libuzi/handle.h and handle.c, event.c, semaphore.c,
-- mutex.c, wait.c and the handle of a waitable timer in timer.c, over a kernel that is a parameter.
pub mod Kernel
pub mod Handles
pub mod Wait
pub mod Event
pub mod Semaphore
pub mod Mutex
pub mod Repeat
pub mod Runs
pub mod Waiting
pub mod Signals
pub mod Tokens
pub mod Multiple
pub mod Marks
pub mod WaitAll
mod Tests
