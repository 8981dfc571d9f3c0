-- ===== src/Sockets/Calls.antt =====
-- libuzi/winsock.c: the calls that do more than pass their arguments on. A socket that the code casts
-- to an int is that int, and the results of the system are parameters.
use libuzi.Common.{
  ℕ, ◌-◌, Bool, true, false, Option, none, some, ◌==◌, if◌then◌else◌, bit_and, bit_or,
}
use libuzi.Common.Integers.{ℤ, pos, negsuc}
use libuzi.Synch.Kernel.{Kernel}
use libuzi.Synch.Handles.{Heap}
use libuzi.Synch.Event.{set_event_file_descriptor}

-- The request FIONBIO and the flag O_NONBLOCK of Linux
abbrev pub fionbio : ℕ
fionbio = 21537

abbrev pub o_nonblock : ℕ
o_nonblock = 2048

-- fcntl on the flags of a descriptor: F_GETFL, which is none for -1, and F_SETFL, with whether it
-- succeeds
pub record Fcntl (K : Type 0) : Type 0 where
  pub get_flags : ℤ → K → Option ℕ
  pub set_flags : ℤ → ℕ → K → Bool × K

unfoldable pub non_blocking : (arg flags : ℕ) → ℕ
non_blocking arg flags =
    if arg == 0 then flags - bit_and flags o_nonblock else bit_or flags o_nonblock

-- SetEventFileDescriptor's mode for the events of WSAEventSelect
unfoldable pub event_mode : (lNetworkEvents : ℕ) → ℕ
event_mode events =
    bit_or (if bit_and events 1 == 0 then 0 else 1) (if bit_and events 2 == 0 then 0 else 2)

-- The argument of shutdown; none is the -1 that _shutdown starts with
unfoldable pub shutdown_how : (how : ℕ) → Option ℕ
shutdown_how how =
    if how == 0 then some 0 else if how == 1 then some 1 else if how == 2 then some 2 else none

-- _socket, by the result of socket; none is INVALID_SOCKET
unfoldable pub socket : (fd : ℤ) → Option ℕ
socket (pos fd) = if fd == 0 then none else some fd
socket (negsuc n) = none

module _ {K : Type 0} where
  -- _ioctlsocket: true is 0, false SOCKET_ERROR. The result of F_SETFL is not tested.
  unfoldable pub ioctlsocket : Fcntl K → ℤ → (cmd : ℕ) (argp : Option ℕ) → K → Bool × K
  ioctlsocket fcntl fd cmd argp k =
      if cmd == fionbio
      then elim argp [
        | none ↦ (false, k)
        | some arg ↦ elim (fcntl.get_flags fd k) [
          | none ↦ (false, k)
          | some flags ↦ (true, (fcntl.set_flags fd (non_blocking arg flags) k).1)
        ]
      ]
      else (true, k)

  -- _shutdown: none is SOCKET_ERROR without a call
  unfoldable pub shutdown : (system : ℤ → ℕ → K → ℤ × K) → ℤ → (how : ℕ) → K → Option ℤ × K
  shutdown system fd how k = elim (shutdown_how how) [
    | none ↦ (none, k)
    | some s_how ↦ (some (system fd s_how k).0, (system fd s_how k).1)
  ]

  -- WSAEventSelect, in which _ioctlsocket leaves arg at 1
  unfoldable pub wsa_event_select :
      Kernel K
      → Fcntl K
      → Heap
      → (s : ℤ) (hEventObject lNetworkEvents : ℕ) → K
      → Option (Bool × Heap × K)
  wsa_event_select kernel fcntl heap s h events k =
      if (ioctlsocket fcntl s fionbio (some 1) k).0
      then set_event_file_descriptor kernel 0 heap h s (event_mode events)
          (ioctlsocket fcntl s fionbio (some 1) k).1
      else some (false, heap, k)
