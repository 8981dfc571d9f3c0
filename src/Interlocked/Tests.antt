-- ===== src/Interlocked/Tests.antt =====
-- The lists at concrete entries.
use libuzi.Interlocked.Single.{Slist, slist, zero_header, same_alignment, push_round, flush_round}
use libuzi.Interlocked.Stack.{Chain, push_round_lem, push, pop, call_all, wide_flush_lem}
use libuzi.Common.{ℕ, true, false, ◌⊎◌, refl, none, some, ◌≡◌, [], ◌∷◌, ◌==◌, if◌then◌else◌, arith}
use libuzi.Interlocked.Entries.{Links, remove_entry_list}
use libuzi.Interlocked.Ring.{Ring}
use libuzi.Interlocked.Lists.{is_nil, remove_entry_list-Ring}

-- The ring of the head 1 through 2, 3 and 4.
abbrev links : Links
links = record {
  flink = λ a. if a == 1 then 2 else if a == 2 then 3 else if a == 3 then 4 else 1;
  blink = λ a. if a == 1 then 4 else if a == 2 then 1 else if a == 3 then 2 else 3;
}

links-Ring : Ring links 1 (2 ∷ 3 ∷ 4 ∷ [])
links-Ring = ground arith

remove_entry_list-Ring_example :
    (m' : Links) × (remove_entry_list 3 links ≡ (is_nil (2 ∷ 4 ∷ []), m')) × Ring m' 1 (2 ∷ 4 ∷ [])
remove_entry_list-Ring_example = remove_entry_list-Ring links 1 3 (2 ∷ []) (4 ∷ []) links-Ring

-- A list of the entries 16 and 32, and the push of 48 over it.
abbrev next_of : ℕ → ℕ
next_of a = if a == 16 then 32 else 0

abbrev two_entries : Slist
two_entries = slist (record { next = 16; depth = 2; sequence = 2 }) next_of

push_round_lem_example :
    ((push_round true 48 two_entries.header two_entries ≡ none)
      × (same_alignment true two_entries.header two_entries.header ≡ false))
    ⊎ ((s' : Slist) × (push_round true 48 two_entries.header two_entries ≡ some (16, s'))
        × Chain s'.links s'.header.next (48 ∷ 16 ∷ 32 ∷ []))
push_round_lem_example =
    push_round_lem true 48 two_entries.header two_entries (16 ∷ 32 ∷ [])
      (refl, (ground arith), (refl, (ground arith), refl)) (ground arith) (ground arith)

abbrev no_entries : Slist
no_entries = slist zero_header (λ a. 0)

wide_flush_lem_example :
    (s' : Slist) × (call_all true (push 16 ∷ push 32 ∷ pop ∷ []) no_entries ≡ some s')
    × (flush_round true s'.header s' ≡ some (0, s'))
wide_flush_lem_example = wide_flush_lem (push 16 ∷ push 32 ∷ pop ∷ []) no_entries refl
