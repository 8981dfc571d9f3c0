-- ===== src/Timer/Lists.antt =====
-- The lists of a timer queue of libuzi/timer.c after the functions on them.
use libuzi.Common.{
  ℕ, zero, suc, ◌+◌, ◌<◌, ◌≡◌, ◌≢◌, ◌⊎◌, inl, inr, refl, sym, ap, Bool, true, false, not, Option,
  none, some, List, [], ◌∷◌, ◌++◌, ◌==◌, if◌then◌else◌, Bool-cases, length, All, arith,
}
use libuzi.Timer.Times.{Timespec, timespec_compare}
use libuzi.Timer.Queue.{
  Timer, TimerQueue, queue, is_positive, is_negative, fits_between, insert_behind,
  insert_timer_queue_timer, remove_timer_queue_timer, fire_one, fire_expired_timer_queue_timers,
  delete_timer_queue_timer,
}

-- Whether a timer expires after one timer and before another.
abbrev pub IsBetween : (timer node next : Timer) → Type 0
IsBetween timer node next =
    (is_positive (timespec_compare timer.expiration_time node.expiration_time) ≡ true)
    × (is_negative (timespec_compare timer.expiration_time next.expiration_time) ≡ true)

-- The timer is between no two neighbours of the list.
abbrev pub NowhereBetween : Timer → List Timer → Type 0
NowhereBetween timer [] = Unit
NowhereBetween timer (node ∷ []) = Unit
NowhereBetween timer (node ∷ next ∷ rest) =
    ¬ IsBetween timer node next × NowhereBetween timer (next ∷ rest)

-- The list with the timer at its end if it is between no two neighbours; otherwise behind the first
-- of the first two neighbours that it is between, in place of the second.
abbrev pub Inserted : List Timer → Timer → List Timer → Type 0
Inserted ns timer ms =
    (NowhereBetween timer ns × (ms ≡ ns ++ timer ∷ []))
    ⊎ ((before : List Timer) × (node : Timer) × (lost : Timer) × (rest : List Timer) × (ns
          ≡ before ++ node ∷ lost ∷ rest)
        × NowhereBetween timer (before ++ node ∷ [])
        × IsBetween timer node lost
        × (ms ≡ before ++ node ∷ timer ∷ rest))

fits_between_lem :
    (timer node next : Timer)
    → ((fits_between timer node next ≡ true) × IsBetween timer node next)
      ⊎ ((fits_between timer node next ≡ false) × ¬ IsBetween timer node next)
fits_between_lem timer node next = elim (Bool-cases (fits_between timer node next)) [
  | inl e ↦ inl (e, (ground arith, ground arith))
  | inr e ↦ inr (e, (λ between. ground (arith, between.0, between.1)))
]

-- One more neighbour in front of the first two.
before-cons :
    (timer node next : Timer) (before : List Timer) (last : Timer) (rest more : List Timer)
    → ¬ IsBetween timer node next
    → next ∷ rest ≡ before ++ last ∷ more
    → NowhereBetween timer (before ++ last ∷ [])
    → NowhereBetween timer (node ∷ before ++ last ∷ [])
before-cons timer node next [] last rest more apart source nowhere =
    let is_last : next ≡ last = cc source in (rw (← is_last) apart, tt)
before-cons timer node next (b ∷ before) last rest more apart source nowhere =
    let is_head : next ≡ b = cc source in (rw (← is_head) apart, nowhere)

insert_behind_lem :
    (node : Timer) (rest : List Timer) (timer : Timer)
    → Inserted (node ∷ rest) timer (insert_behind node rest timer)
unfolding insert_behind
insert_behind_lem node [] timer = inl (tt, refl)
insert_behind_lem node (next ∷ rest) timer = elim (fits_between_lem timer node next) [
  | inl (e, between) ↦ inr ([], node, next, rest, refl, tt, between, rw e refl)
  | inr (e, apart) ↦ elim (insert_behind_lem next rest timer) [
    | inl (nowhere, end) ↦ inl ((apart, nowhere), rw e (ap (λ l. node ∷ l) end))
    | inr (before, last, lost, more, source, nowhere, between, made) ↦ inr (
      node ∷ before,
      last,
      lost,
      more,
      ap (λ l. node ∷ l) source,
      before-cons timer node next before last rest (lost ∷ more) apart source nowhere,
      between,
      rw e (ap (λ l. node ∷ l) made),
    )
  ]
]

-- After InsertTimerQueueTimer the list is the old one with the timer at its end, if no two
-- neighbours of the old one have the timer between them, by their times of expiration; otherwise
-- the timer stands behind the first of the first two such neighbours, in place of the second, which
-- is in the list no more, and all others are where they were.
pub insert_timer_queue_timer_lem :
    (ns : List Timer) (timer : Timer) → Inserted ns timer (insert_timer_queue_timer ns timer)
unfolding insert_timer_queue_timer
insert_timer_queue_timer_lem [] timer = inl (tt, refl)
insert_timer_queue_timer_lem (node ∷ rest) timer = insert_behind_lem node rest timer

-- Whether a timer has expired, and the expired timers at the front of a list and the others.
abbrev pub has_expired : Timespec → Timer → Bool
has_expired now t = not (is_negative (timespec_compare now t.expiration_time))

abbrev pub expired : Timespec → List Timer → List Timer
expired now [] = []
expired now (t ∷ ts) = if has_expired now t then t ∷ expired now ts else []

abbrev pub pending : Timespec → List Timer → List Timer
pending now [] = []
pending now (t ∷ ts) = if has_expired now t then pending now ts else t ∷ ts

-- On an active list of timers that have no period, with more fuel than timers,
-- FireExpiredTimerQueueTimers returns: it has called back, in order, the timers before the first
-- one that has not expired, and these are no longer active while all others are, in order.
pub fire_expired_lem :
    (now : Timespec) (active inactive : List Timer) (fuel : ℕ)
    → All (λ (t : Timer). t.period ≡ 0) active
    → length active < fuel
    → (inactive' : List Timer) × (fire_expired_timer_queue_timers fuel now (queue active inactive)
        ≡ some (queue (pending now active) inactive', expired now active))
unfolding fire_expired_timer_queue_timers fire_one
fire_expired_lem now active inactive zero once enough = absurd (omega arith)
fire_expired_lem now [] inactive (suc fuel) once enough = (inactive, refl)
fire_expired_lem now (t ∷ ts) inactive (suc fuel) once enough =
    let single : (t.period == 0) ≡ true = ground (arith, once.0) in
    let (inactive', went) =
      fire_expired_lem now ts
        (insert_timer_queue_timer inactive (record t { fire_count = t.fire_count + 1 })) fuel once.1
        (omega arith) in
    elim (Bool-cases (is_negative (timespec_compare now t.expiration_time))) [
      | inl e ↦ (inactive, rw e refl)
      | inr e ↦ (inactive', rw (e, single, went) refl)
    ]

-- The timers but the one at an address.
abbrev pub others : ℕ → List Timer → List Timer
others a [] = []
others a (t ∷ ts) = if t.address == a then others a ts else t ∷ others a ts

abbrev pub Apart : List Timer → Type 0
Apart [] = Unit
Apart (t ∷ ts) = All (λ (u : Timer). t.address ≢ u.address) ts × Apart ts

others-none : (a : ℕ) (ts : List Timer) → All (λ (u : Timer). a ≢ u.address) ts → others a ts ≡ ts
others-none a [] h = refl
others-none a (t ∷ ts) h =
    let other : (t.address == a) ≡ false = ground (arith, h.0) in
    rw other (ap (λ l. t ∷ l) (others-none a ts h.1))

-- From a list of timers at different addresses, RemoveTimerQueueTimer takes out the timer at the
-- address, if there is one, and no other, and keeps the order.
pub remove_timer_queue_timer_lem :
    (ts : List Timer) (a : ℕ) → Apart ts → remove_timer_queue_timer ts a ≡ others a ts
unfolding remove_timer_queue_timer
remove_timer_queue_timer_lem [] a apart = refl
remove_timer_queue_timer_lem (t ∷ ts) a apart = elim (Bool-cases (t.address == a)) [
  | inl e ↦
      let same : t.address ≡ a = ground arith in rw e (sym (others-none a ts (rw same at apart.0)))
  | inr e ↦ rw e (ap (λ l. t ∷ l) (remove_timer_queue_timer_lem ts a apart.1))
]

fire_once :
    (t : Timer)
    → t.period ≡ 0
    → fire_one t [] [] ≡ queue [] (record t { fire_count = t.fire_count + 1 } ∷ [])
unfolding fire_one insert_timer_queue_timer
fire_once t once = let single : (t.period == 0) ≡ true = ground (arith, once) in rw single refl

-- For a queue with one active timer that is not NULL, has no period and has expired, and fuel of at
-- least 2: FireExpiredTimerQueueTimers calls it back, DeleteTimerQueueTimer without an event then
-- returns TRUE and has freed the memory of the timer, and the inactive list still has the timer, at
-- this address.
pub fired_then_deleted :
    (now : Timespec) (t : Timer) (fuel : ℕ)
    → t.period ≡ 0
    → has_expired now t ≡ true
    → 1 < fuel
    → 0 < t.address
    → (q q' : TimerQueue) × (fire_expired_timer_queue_timers fuel now (queue (t ∷ []) [])
        ≡ some (q, t ∷ []))
      × (delete_timer_queue_timer (some q) t.address 0 ≡ record {
        result = true;
        timer_queue = some q';
        freed = some t.address;
        event_set = none;
      })
      × (q'.inactive ≡ record t { fire_count = t.fire_count + 1 } ∷ [])
unfolding fire_expired_timer_queue_timers delete_timer_queue_timer remove_timer_queue_timer
fired_then_deleted now t zero once late enough made = absurd (omega arith)
fired_then_deleted now t (suc zero) once late enough made = absurd (omega arith)
fired_then_deleted now t (suc (suc fuel)) once late enough made =
    let e : is_negative (timespec_compare now t.expiration_time) ≡ false = ground arith in
    let after : TimerQueue = queue [] (record t { fire_count = t.fire_count + 1 } ∷ []) in
    let one : fire_one t [] [] ≡ after = fire_once t once in
    let fires : ◌≡◌ {A = Option (TimerQueue × List Timer)} (some (fire_one t [] [], t ∷ []))
        (some (after, t ∷ [])) =
      λ i. some (one i, t ∷ []) in
    let there : (t.address == 0) ≡ false = ground arith in
    (after, after, rw (e, one) fires, rw there refl, refl)
