-- ===== src/Sockets/Blocking.antt =====
-- What _ioctlsocket of libuzi/winsock.c does to the flags of a descriptor.
use libuzi.Common.{
  ℕ, zero, suc, false, ap, ◌∙◌, Bool, ◌⊎◌, ◌+◌, ◌*◌, ◌/◌, ◌%◌, ◌≡◌, refl, true, some, ◌==◌,
  if◌then◌else◌, bit_and, bit_or, arith, Bool-cases, inl, inr,
}
use libuzi.Common.Bits.{bit_and_even, bit_or_even, bit_and-one, bit_or-one}
use libuzi.Common.Integers.{ℤ}
use libuzi.Sockets.Calls.{Fcntl, fionbio, non_blocking, ioctlsocket}

-- One digit of the flag at a time
bit_and_64 : (f : ℕ) → bit_and f 64 ≡ f / 64 % 2 * 64
bit_and_64 f = omega (
  arith,
  bit_and_even f 32,
  bit_and_even (f / 2) 16,
  bit_and_even (f / 2 / 2) 8,
  bit_and_even (f / 2 / 2 / 2) 4,
  bit_and_even (f / 2 / 2 / 2 / 2) 2,
  bit_and_even (f / 2 / 2 / 2 / 2 / 2) 1,
  bit_and-one (f / 2 / 2 / 2 / 2 / 2 / 2),
)

bit_and_nonblock : (f : ℕ) → bit_and f 2048 ≡ f / 2048 % 2 * 2048
bit_and_nonblock f = omega (
  arith,
  bit_and_even f 1024,
  bit_and_even (f / 2) 512,
  bit_and_even (f / 2 / 2) 256,
  bit_and_even (f / 2 / 2 / 2) 128,
  bit_and_even (f / 2 / 2 / 2 / 2) 64,
  bit_and_64 (f / 2 / 2 / 2 / 2 / 2),
)

bit_or_64 : (f : ℕ) → bit_or f 64 ≡ (f / 128 * 2 + 1) * 64 + f % 64
bit_or_64 f = omega (
  arith,
  bit_or_even f 32,
  bit_or_even (f / 2) 16,
  bit_or_even (f / 2 / 2) 8,
  bit_or_even (f / 2 / 2 / 2) 4,
  bit_or_even (f / 2 / 2 / 2 / 2) 2,
  bit_or_even (f / 2 / 2 / 2 / 2 / 2) 1,
  bit_or-one (f / 2 / 2 / 2 / 2 / 2 / 2),
)

bit_or_nonblock : (f : ℕ) → bit_or f 2048 ≡ (f / 4096 * 2 + 1) * 2048 + f % 2048
bit_or_nonblock f = omega (
  arith,
  bit_or_even f 1024,
  bit_or_even (f / 2) 512,
  bit_or_even (f / 2 / 2) 256,
  bit_or_even (f / 2 / 2 / 2) 128,
  bit_or_even (f / 2 / 2 / 2 / 2) 64,
  bit_or_64 (f / 2 / 2 / 2 / 2 / 2),
)

abbrev pub bit : (b : ℕ) → ℕ → ℕ
bit zero f = f % 2
bit (suc b) f = bit b (f / 2)

-- Only the flag changes, and it says whether the argument is not zero.
abbrev pub flag_or : (arg old b : ℕ) → ℕ
flag_or arg old b = if b == 11 then if arg == 0 then 0 else 1 else old

non_blocking_parts :
    (arg f : ℕ)
    → (non_blocking arg f / 4096 ≡ f / 4096)
      × (non_blocking arg f % 2048 ≡ f % 2048)
      × (non_blocking arg f / 2048 % 2 ≡ (if arg == 0 then 0 else 1))
unfolding non_blocking
non_blocking_parts arg f = elim (Bool-cases (arg == 0)) [
  | inl zero_arg ↦
      let cut = bit_and_nonblock f in rw (zero_arg, cut) (omega arith, omega arith, omega arith)
  | inr other ↦
      let joined = bit_or_nonblock f in rw (other, joined) (omega arith, omega arith, omega arith)
]

-- Numbers that agree above and below the flag agree on each bit there.
pub bit_agrees :
    (f g b : ℕ) → f / 4096 ≡ g / 4096 → f % 2048 ≡ g % 2048 → (b == 11) ≡ false → bit b f ≡ bit b g
bit_agrees f g zero high low other = omega arith
bit_agrees f g (suc zero) high low other = omega arith
bit_agrees f g (suc (suc zero)) high low other = omega arith
bit_agrees f g (suc (suc (suc zero))) high low other = omega arith
bit_agrees f g (suc (suc (suc (suc zero)))) high low other = omega arith
bit_agrees f g (suc (suc (suc (suc (suc zero))))) high low other = omega arith
bit_agrees f g (suc (suc (suc (suc (suc (suc zero)))))) high low other = omega arith
bit_agrees f g (suc (suc (suc (suc (suc (suc (suc zero))))))) high low other = omega arith
bit_agrees f g (suc (suc (suc (suc (suc (suc (suc (suc zero)))))))) high low other = omega arith
bit_agrees f g (suc (suc (suc (suc (suc (suc (suc (suc (suc zero))))))))) high low other =
    omega arith
bit_agrees f g (suc (suc (suc (suc (suc (suc (suc (suc (suc (suc zero)))))))))) high low other =
    omega arith
bit_agrees f g (suc (suc (suc (suc (suc (suc (suc (suc (suc (suc (suc zero))))))))))) high low
      other =
    absurd (cc other)
bit_agrees f g (suc (suc (suc (suc (suc (suc (suc (suc (suc (suc (suc (suc b)))))))))))) high low
      other =
    let halves : f / 2 / 2 / 2 / 2 / 2 / 2 / 2 / 2 / 2 / 2 / 2 / 2
        ≡ g / 2 / 2 / 2 / 2 / 2 / 2 / 2 / 2 / 2 / 2 / 2 / 2 =
      omega arith in
    ap (bit b) halves

pub bit_11 : (f : ℕ) → bit 11 f ≡ f / 2048 % 2
bit_11 f = omega arith

non_blocking_lem : (arg f b : ℕ) → bit b (non_blocking arg f) ≡ flag_or arg (bit b f) b
non_blocking_lem arg f b =
    let (high, low, flag) = non_blocking_parts arg f in
    elim (Bool-cases (b == 11)) [
      | inl e ↦
          let is_flag : b ≡ 11 = ground arith in rw is_flag (bit_11 (non_blocking arg f) ∙ flag)
      | inr e ↦ rw e (bit_agrees (non_blocking arg f) f b high low e)
    ]

-- What is documented of fcntl at a descriptor. A call of F_SETFL that fails changes nothing; one that
-- succeeds sets the flags that it can set, which O_NONBLOCK is one of, and ignores all others.
pub record FlagLaws {K : Type 0} (fcntl : Fcntl K) (fd : ℤ) : Type 0 where
  pub settable : ℕ → Bool
  pub nonblock_settable : settable 11 ≡ true
  pub fails :
      (f : ℕ) (k : K)
      → (fcntl.set_flags fd f k).0 ≡ false
      → fcntl.get_flags fd (fcntl.set_flags fd f k).1 ≡ fcntl.get_flags fd k
  pub sets :
      (f before : ℕ) (k : K)
      → fcntl.get_flags fd k ≡ some before
      → (fcntl.set_flags fd f k).0 ≡ true
      → (after : ℕ) × (fcntl.get_flags fd (fcntl.set_flags fd f k).1 ≡ some after)
        × ((b : ℕ) → bit b after ≡ (if settable b then bit b f else bit b before))

-- The flags that fcntl ignores are those that _ioctlsocket has kept.
settled :
    (arg flags b after : ℕ) (can_set : Bool)
    → (b ≡ 11 → can_set ≡ true)
    → after ≡ (if can_set then bit b (non_blocking arg flags) else bit b flags)
    → after ≡ flag_or arg (bit b flags) b
settled arg flags b after true settable e = e ∙ non_blocking_lem arg flags b
settled arg flags b after false settable e = elim (Bool-cases (b == 11)) [
  | inl same ↦ let never = settable (ground arith) in absurd (cc never)
  | inr other ↦ rw other e
]

-- Where fcntl with F_SETFL is as documented, so that it may fail and change nothing, or succeed and
-- set those flags that it can set, and F_GETFL returns some flags: _ioctlsocket with FIONBIO and an
-- argument returns 0. If F_SETFL has failed, the flags are as before; if it has not, each bit of
-- them is as before but O_NONBLOCK, which is set unless the argument is 0.
pub ioctlsocket_lem :
    {K : Type 0} (fcntl : Fcntl K) (fd : ℤ) (laws : FlagLaws fcntl fd) (arg flags : ℕ) (k : K)
    → fcntl.get_flags fd k ≡ some flags
    → (k' : K) × (ioctlsocket fcntl fd fionbio (some arg) k ≡ (true, k'))
      × ((((fcntl.set_flags fd (non_blocking arg flags) k).0 ≡ false)
            × (fcntl.get_flags fd k' ≡ some flags))
          ⊎ (((fcntl.set_flags fd (non_blocking arg flags) k).0 ≡ true)
              × ((after : ℕ) × (fcntl.get_flags fd k' ≡ some after)
                  × ((b : ℕ) → bit b after ≡ flag_or arg (bit b flags) b))))
unfolding ioctlsocket
ioctlsocket_lem fcntl fd laws arg flags k now =
    let set = fcntl.set_flags fd (non_blocking arg flags) k in
    (
      set.1,
      rw (now, ioctlsocket) refl,
      elim (Bool-cases set.0) [
        | inr e ↦ inl (e, laws.fails (non_blocking arg flags) k e ∙ now)
        | inl e ↦
            let (after, seen, bits) = laws.sets (non_blocking arg flags) flags k now e in
            inr (
              e,
              (
                after,
                seen,
                λ b.
                    settled arg flags b (bit b after) (laws.settable b)
                      (λ same. ap laws.settable same ∙ laws.nonblock_settable) (bits b),
              ),
            )
      ],
    )
