-- ===== src/Lib.antt =====
-- libuzi: the parts of the Windows API that the library brings to other systems, in C. Its files are
-- under libuzi/, and the public types under include/uzi/.
--
-- The parts that are modelled, and how they interact:
-- * Unicode (libuzi/unicode.c): ConvertUTF16toUTF8 and ConvertUTF8toUTF16, and the calls
--   UziUtf8toUtf16 and UziUtf16toUtf8 that the other files use for strings. Utf16 and Utf8 have the
--   rounds of the two loops, Cursor what they share, Api the calls. Scalar has the two encoding forms
--   as the Unicode standard defines them, Loop the loop over any codec, Encode and Decode the codecs
--   that the rounds are, Legal and Sequence isLegalUTF8, Safety the bounds, RoundTrip, Strings and
--   Lax what follows.
-- * Dictionary (libuzi/dictionary.c): the ListDictionary, which enters a critical section around each
--   call if it is synchronized. Store is the memory of the items with the calls that leave the file
--   as events, Defs the functions, Chain and Spec the list that the items stand for, Loops and
--   Removal the loops on it, Queries and Updates the functions on it, Lookup pairs of calls.
-- * Critical (libuzi/critical.c): the critical section. A thread is a place in a call, and each access
--   to a shared field is one step of a thread; Reachable are the systems that any number of threads
--   come to in any order of their steps.
-- * Barrier (libuzi/barrier.c) and Init (libuzi/init.c): the synchronization barrier and
--   InitOnceExecuteOnce, in the same way as the critical section. Defs has the steps, Invariant,
--   Elsewhere and Safety what every step keeps, Rounds, Spins and Once what follows.
-- * Synch (libuzi/handle.h, handle.c, event.c, semaphore.c, mutex.c, wait.c, and the handle of a timer
--   in timer.c): the objects behind a HANDLE and the waits for them. Kernel has the calls of the
--   operating system as a parameter, Handles the objects and what goes by their type, Event, Semaphore
--   and Mutex their operations, Wait and Multiple the waits. Repeat, Waiting and Runs have what the
--   proofs share, Signals and Tokens an event as a Boolean and a semaphore as a number, Marks and
--   WaitAll the wait for all objects.
-- * Alignment (libuzi/alignment.c): aligned allocations over a malloc that is a parameter.
-- * Interlocked (libuzi/interlocked.c): the doubly linked list, as a ring of links, in Entries, Ring
--   and Lists; the single lists and the atomic operations in Single, their theorems in Stack.
-- * File (libuzi/file.c): paths as lists of bytes, and files as a whole.
-- * Sockets (libuzi/winsock.c): the number of the last error, in Defs and LastError over the numbers
--   of Wsa and Errno, and the calls that do more than pass their arguments on, in Calls and Blocking.
-- * Timer (libuzi/timer.c): the times, the two lists of a timer queue and a round of its thread, and
--   the waitable timers.
-- Common has the numbers, tests, lists and bits that the parts share.
--
-- Conventions. A pointer is a number with 0 for NULL, a function that changes memory returns it,
-- and an access to memory that is not there is a fault, `none`. Unsigned arithmetic wraps as in C
-- where the width can matter. The loops of the converters have one more unit of fuel than the
-- source has units, since every round reads at least one; that this is enough is part of the
-- theorems on them. The loops of the dictionary have fuel as a parameter, and more fuel than
-- entries is enough. The steps of the critical section, the barrier and InitOnceExecuteOnce have no
-- loop, as each turn of a loop is a step. The loops of Synch that repeat an interrupted call have
-- fuel, and more fuel than the kernel has interruptions left is enough; `none` there is a fault or
-- the end of the fuel. LockCount and the lengths of buffers, signed in C, are kept below 2^31. The
-- laws of an eventfd, of a pipe, of poll on them and of fcntl are hypotheses, which the systems of
-- Synch/Tests and Sockets/Tests keep. A poll whose time-out is negative as an int has no end, so
-- that no law says that it returns while nothing has an event.
--
-- Not modelled: libuzi/cpu-features.c, a copy of another library; the files that only call the
-- operating system (sysinfo, library, sleep, error); and, so far, thread; of timer the creation
-- and deletion of a queue and the signal handler; of file and winsock the functions that are one
-- call of the system, and of winsock the translated flags of interfaces; and of interlocked the
-- build with _WIN64. SetLastError is left out throughout. In the critical section sched_yield and
-- usleep change no state, and the build without spinning is left out; in the dictionary the hash
-- of an object and its other callbacks are never called. Of the files of Synch the builds without
-- eventfd and without poll are left out, the wait for a thread, and the build with a mutex that
-- has no timed lock; the names and attributes of objects are not used by the code. Deleting a
-- barrier while threads are in it is described as the code does it, without the closed events.
pub mod Common
pub mod File
pub mod Sockets
pub mod Init
pub mod Interlocked
pub mod Synch
pub mod Timer
pub mod Unicode
pub mod Dictionary
pub mod Alignment
pub mod Barrier
pub mod Critical
