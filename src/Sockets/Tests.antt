-- ===== src/Sockets/Tests.antt =====
-- The number of the last error, and calls on sockets, at concrete values.
use libuzi.Common.{
  ℕ, ◌+◌, ◌*◌, ◌∙◌, sym, inl, inr, Bool-cases, arith, ◌/◌, ◌%◌, ◌≡◌, refl, true, false, none, some,
  ◌==◌, if◌then◌else◌, ◌⊎◌,
}
use libuzi.Common.Integers.{pos}
use libuzi.Sockets.Wsa.{wsaetimedout, wsaeconnreset}
use libuzi.Sockets.Errno.{eintr, econnreset, eproto}
use libuzi.Sockets.Defs.{is_label, set_cases, get_cases, wsa_set_last_error, wsa_get_last_error}
use libuzi.Sockets.LastError.{last_error_lem}
use libuzi.Sockets.Calls.{
  Fcntl, fionbio, shutdown_how, socket, event_mode, non_blocking, ioctlsocket,
}
use libuzi.Sockets.Blocking.{bit, flag_or, bit_agrees, bit_11, FlagLaws, ioctlsocket_lem}

last_error_lem_example :
    ((wsa_get_last_error (wsa_set_last_error wsaetimedout eintr) ≡ wsaetimedout)
      ⊎ ((is_label set_cases wsaetimedout ≡ false)
          × (wsa_set_last_error wsaetimedout eintr ≡ eintr)))
    × ((wsa_set_last_error (wsa_get_last_error eintr) 0 ≡ eintr)
        ⊎ ((is_label get_cases eintr ≡ false)
            × (wsa_get_last_error eintr ≡ (if eintr == eproto then wsaeconnreset else 0))))
last_error_lem_example = last_error_lem wsaetimedout eintr 0

-- WSANOTINITIALISED has no number in errno: the error before stays the last one.
not_set : wsa_get_last_error (wsa_set_last_error 10093 econnreset) ≡ wsaeconnreset
unfolding wsa_set_last_error wsa_get_last_error set_cases get_cases
not_set = refl

-- Descriptor 0 is a socket of the system, and refused.
descriptor_zero : (socket (pos 0) ≡ none) × (socket (pos 3) ≡ some 3)
unfolding socket
descriptor_zero = (refl, refl)

hows : (shutdown_how 2 ≡ some 2) × (shutdown_how 3 ≡ none)
unfolding shutdown_how
hows = (refl, refl)

modes : (event_mode 33 ≡ 1) × (event_mode 3 ≡ 3)
unfolding event_mode
modes = (refl, refl)

flags : (non_blocking 1 2 ≡ 2050) × (non_blocking 0 2050 ≡ 2)
unfolding non_blocking
flags = (refl, refl)

-- A system with the flags of one descriptor, of which F_SETFL changes O_NONBLOCK only
abbrev with_nonblock : (f before : ℕ) → ℕ
with_nonblock f before = before / 4096 * 4096 + f / 2048 % 2 * 2048 + before % 2048

only_nonblock : (f k b : ℕ) → bit b (with_nonblock f k) ≡ (if b == 11 then bit b f else bit b k)
only_nonblock f k b = elim (Bool-cases (b == 11)) [
  | inl e ↦
      let is_flag : b ≡ 11 = ground arith in
      rw is_flag (bit_11 (with_nonblock f k) ∙ omega arith ∙ sym (bit_11 f))
  | inr e ↦ rw e (bit_agrees (with_nonblock f k) k b (omega arith) (omega arith) e)
]

abbrev one_descriptor : Fcntl ℕ
one_descriptor = record {
  get_flags = λ fd k. some k;
  set_flags = λ fd f k. (true, with_nonblock f k);
}

one_descriptor-FlagLaws : FlagLaws one_descriptor (pos 3)
one_descriptor-FlagLaws = record {
  settable = λ b. b == 11;
  nonblock_settable = refl;
  fails = λ f k e. absurd (cc e);
  sets = λ f before k now ok.
      let same : k ≡ before = cc now in
      (with_nonblock f k, refl, λ b. rw (← same) (only_nonblock f k b));
}

ioctlsocket_lem_example :
    (k' : ℕ) × (ioctlsocket one_descriptor (pos 3) fionbio (some 1) 2 ≡ (true, k'))
    × ((((one_descriptor.set_flags (pos 3) (non_blocking 1 2) 2).0 ≡ false)
          × (one_descriptor.get_flags (pos 3) k' ≡ some 2))
        ⊎ (((one_descriptor.set_flags (pos 3) (non_blocking 1 2) 2).0 ≡ true)
            × ((after : ℕ) × (one_descriptor.get_flags (pos 3) k' ≡ some after)
                × ((b : ℕ) → bit b after ≡ flag_or 1 (bit b 2) b))))
ioctlsocket_lem_example = ioctlsocket_lem one_descriptor (pos 3) one_descriptor-FlagLaws 1 2 2 refl
