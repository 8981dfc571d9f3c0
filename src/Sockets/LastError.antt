-- ===== src/Sockets/LastError.antt =====
-- The two switches of libuzi/winsock.c are each other's inverse.
use libuzi.Common.{
  ℕ, ◌≡◌, refl, Bool, true, false, ◌&&◌, List, [], ◌∷◌, ◌++◌, ◌==◌, arith, ◌⊎◌, inr, if◌then◌else◌,
}
use libuzi.Sockets.Wsa.{wsaeconnreset}
use libuzi.Sockets.Errno.{eproto}
use libuzi.Sockets.Defs.{
  switch, is_label, set_cases, get_cases, special_cases, wsa_set_last_error, wsa_get_last_error,
}

-- The second switch takes the result of each case of the first to the label.
abbrev inverse : List (ℕ × ℕ) → List (ℕ × ℕ) → ℕ → Bool
inverse [] back d = true
inverse ((label, result) ∷ cases) back d = (switch back result d == label) && inverse cases back d

inverse_lem :
    (cases back : List (ℕ × ℕ)) (d value e : ℕ)
    → inverse cases back d ≡ true
    → (switch back (switch cases value e) d ≡ value)
      ⊎ ((is_label cases value ≡ false) × (switch cases value e ≡ e))
inverse_lem [] back d value e inverted = inr (refl, refl)
inverse_lem ((label, result) ∷ cases) back d value e inverted =
    ground (arith, inverse_lem cases back d value e)

switch-append :
    (xs ys : List (ℕ × ℕ)) (value d : ℕ)
    → switch (xs ++ ys) value d ≡ switch xs value (switch ys value d)
switch-append [] ys value d = refl
switch-append ((label, result) ∷ xs) ys value d = ground (arith, switch-append xs ys value d)

set_then_errors : (d : ℕ) → inverse set_cases (get_cases ++ special_cases) d ≡ true
unfolding set_cases get_cases
set_then_errors d = refl

get_errors : (d : ℕ) → inverse get_cases set_cases d ≡ true
unfolding set_cases get_cases
get_errors d = refl

-- For any error number, errno and earlier errno: after WSASetLastError, WSAGetLastError returns the
-- number, or no case of WSASetLastError has the number and errno is as before. Setting the error
-- that WSAGetLastError returns gives errno back, or errno has none of its ordinary cases, and it
-- returns WSAECONNRESET for EPROTO and 0 for any other.
pub last_error_lem :
    (i errno before : ℕ)
    → ((wsa_get_last_error (wsa_set_last_error i errno) ≡ i)
        ⊎ ((is_label set_cases i ≡ false) × (wsa_set_last_error i errno ≡ errno)))
      × ((wsa_set_last_error (wsa_get_last_error errno) before ≡ errno)
          ⊎ ((is_label get_cases errno ≡ false)
              × (wsa_get_last_error errno ≡ (if errno == eproto then wsaeconnreset else 0))))
unfolding wsa_set_last_error wsa_get_last_error
last_error_lem i errno before = (
  inverse_lem set_cases (get_cases ++ special_cases) 0 i errno (set_then_errors 0),
  rw (switch-append get_cases special_cases errno 0) (
      inverse_lem get_cases set_cases before errno (switch special_cases errno 0)
        (get_errors before)),
)
