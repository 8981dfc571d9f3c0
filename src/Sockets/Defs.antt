-- ===== src/Sockets/Defs.antt =====
-- libuzi/winsock.c: WSASetLastError and WSAGetLastError, with errno as a number. The int that the
-- first takes is a natural number: a negative one is no label of the switch either.
use libuzi.Common.{ℕ, Bool, false, ◌||◌, List, [], ◌∷◌, ◌++◌, ◌==◌, if◌then◌else◌}
use libuzi.Sockets.Wsa.{
  wsaeintr, wsaebadf, wsaeacces, wsaefault, wsaeinval, wsaemfile, wsaewouldblock, wsaeinprogress,
  wsaealready, wsaenotsock, wsaedestaddrreq, wsaemsgsize, wsaeprototype, wsaenoprotoopt,
  wsaeprotonosupport, wsaesocktnosupport, wsaeopnotsupp, wsaepfnosupport, wsaeafnosupport,
  wsaeaddrinuse, wsaeaddrnotavail, wsaenetdown, wsaenetunreach, wsaenetreset, wsaeconnaborted,
  wsaeconnreset, wsaenobufs, wsaeisconn, wsaenotconn, wsaeshutdown, wsaetoomanyrefs, wsaetimedout,
  wsaeconnrefused, wsaeloop, wsaenametoolong, wsaehostdown, wsaehostunreach, wsaenotempty,
  wsaeusers, wsaedquot, wsaestale, wsaeremote,
}
use libuzi.Sockets.Errno.{
  eintr, ebadf, eacces, efault, einval, emfile, ewouldblock, einprogress, ealready, enotsock,
  edestaddrreq, emsgsize, eprototype, enoprotoopt, eprotonosupport, esocktnosupport, eopnotsupp,
  epfnosupport, eafnosupport, eaddrinuse, eaddrnotavail, enetdown, enetunreach, enetreset,
  econnaborted, econnreset, enobufs, eisconn, enotconn, eshutdown, etoomanyrefs, etimedout,
  econnrefused, eloop, enametoolong, ehostdown, ehostunreach, enotempty, eusers, edquot, estale,
  eremote, eproto,
}

-- A switch whose cases are a label and a result, with the result when no label fits
abbrev pub switch : List (ℕ × ℕ) → ℕ → ℕ → ℕ
switch [] value default_result = default_result
switch ((label, result) ∷ cases) value default_result =
    let rest = switch cases value default_result in if value == label then result else rest

abbrev pub is_label : List (ℕ × ℕ) → ℕ → Bool
is_label [] value = false
is_label ((label, result) ∷ cases) value = (value == label) || is_label cases value

-- The cases of WSASetLastError
unfoldable pub set_cases : List (ℕ × ℕ)
set_cases =
    (wsaeintr, eintr)
    ∷ (wsaebadf, ebadf)
    ∷ (wsaeacces, eacces)
    ∷ (wsaefault, efault)
    ∷ (wsaeinval, einval)
    ∷ (wsaemfile, emfile)
    ∷ (wsaewouldblock, ewouldblock)
    ∷ (wsaeinprogress, einprogress)
    ∷ (wsaealready, ealready)
    ∷ (wsaenotsock, enotsock)
    ∷ (wsaedestaddrreq, edestaddrreq)
    ∷ (wsaemsgsize, emsgsize)
    ∷ (wsaeprototype, eprototype)
    ∷ (wsaenoprotoopt, enoprotoopt)
    ∷ (wsaeprotonosupport, eprotonosupport)
    ∷ (wsaesocktnosupport, esocktnosupport)
    ∷ (wsaeopnotsupp, eopnotsupp)
    ∷ (wsaepfnosupport, epfnosupport)
    ∷ (wsaeafnosupport, eafnosupport)
    ∷ (wsaeaddrinuse, eaddrinuse)
    ∷ (wsaeaddrnotavail, eaddrnotavail)
    ∷ (wsaenetdown, enetdown)
    ∷ (wsaenetunreach, enetunreach)
    ∷ (wsaenetreset, enetreset)
    ∷ (wsaeconnaborted, econnaborted)
    ∷ (wsaeconnreset, econnreset)
    ∷ (wsaenobufs, enobufs)
    ∷ (wsaeisconn, eisconn)
    ∷ (wsaenotconn, enotconn)
    ∷ (wsaeshutdown, eshutdown)
    ∷ (wsaetoomanyrefs, etoomanyrefs)
    ∷ (wsaetimedout, etimedout)
    ∷ (wsaeconnrefused, econnrefused)
    ∷ (wsaeloop, eloop)
    ∷ (wsaenametoolong, enametoolong)
    ∷ (wsaehostdown, ehostdown)
    ∷ (wsaehostunreach, ehostunreach)
    ∷ (wsaenotempty, enotempty)
    ∷ (wsaeusers, eusers)
    ∷ (wsaedquot, edquot)
    ∷ (wsaestale, estale)
    ∷ (wsaeremote, eremote)
    ∷ []

-- The cases of WSAGetLastError before the special ones
unfoldable pub get_cases : List (ℕ × ℕ)
get_cases =
    (eintr, wsaeintr)
    ∷ (ebadf, wsaebadf)
    ∷ (eacces, wsaeacces)
    ∷ (efault, wsaefault)
    ∷ (einval, wsaeinval)
    ∷ (emfile, wsaemfile)
    ∷ (ewouldblock, wsaewouldblock)
    ∷ (einprogress, wsaeinprogress)
    ∷ (ealready, wsaealready)
    ∷ (enotsock, wsaenotsock)
    ∷ (edestaddrreq, wsaedestaddrreq)
    ∷ (emsgsize, wsaemsgsize)
    ∷ (eprototype, wsaeprototype)
    ∷ (enoprotoopt, wsaenoprotoopt)
    ∷ (eprotonosupport, wsaeprotonosupport)
    ∷ (esocktnosupport, wsaesocktnosupport)
    ∷ (eopnotsupp, wsaeopnotsupp)
    ∷ (epfnosupport, wsaepfnosupport)
    ∷ (eafnosupport, wsaeafnosupport)
    ∷ (eaddrinuse, wsaeaddrinuse)
    ∷ (eaddrnotavail, wsaeaddrnotavail)
    ∷ (enetdown, wsaenetdown)
    ∷ (enetunreach, wsaenetunreach)
    ∷ (enetreset, wsaenetreset)
    ∷ (econnaborted, wsaeconnaborted)
    ∷ (econnreset, wsaeconnreset)
    ∷ (enobufs, wsaenobufs)
    ∷ (eisconn, wsaeisconn)
    ∷ (enotconn, wsaenotconn)
    ∷ (eshutdown, wsaeshutdown)
    ∷ (etoomanyrefs, wsaetoomanyrefs)
    ∷ (etimedout, wsaetimedout)
    ∷ (econnrefused, wsaeconnrefused)
    ∷ (eloop, wsaeloop)
    ∷ (enametoolong, wsaenametoolong)
    ∷ (ehostdown, wsaehostdown)
    ∷ (ehostunreach, wsaehostunreach)
    ∷ (enotempty, wsaenotempty)
    ∷ (eusers, wsaeusers)
    ∷ (edquot, wsaedquot)
    ∷ (estale, wsaestale)
    ∷ (eremote, wsaeremote)
    ∷ []

abbrev pub special_cases : List (ℕ × ℕ)
special_cases = (eproto, wsaeconnreset) ∷ []

-- WSASetLastError, whose result is errno
unfoldable pub wsa_set_last_error : (iError errno : ℕ) → ℕ
wsa_set_last_error error errno = switch set_cases error errno

unfoldable pub wsa_get_last_error : (errno : ℕ) → ℕ
wsa_get_last_error errno = switch (get_cases ++ special_cases) errno 0
