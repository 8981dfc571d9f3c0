-- ===== src/Sockets/Wsa.antt =====
-- include/uzi/error.h: the numbers of the errors of Windows Sockets that have a number in errno.
use libuzi.Common.{ℕ}

abbrev pub wsaeintr : ℕ
wsaeintr = 10004

abbrev pub wsaebadf : ℕ
wsaebadf = 10009

abbrev pub wsaeacces : ℕ
wsaeacces = 10013

abbrev pub wsaefault : ℕ
wsaefault = 10014

abbrev pub wsaeinval : ℕ
wsaeinval = 10022

abbrev pub wsaemfile : ℕ
wsaemfile = 10024

abbrev pub wsaewouldblock : ℕ
wsaewouldblock = 10035

abbrev pub wsaeinprogress : ℕ
wsaeinprogress = 10036

abbrev pub wsaealready : ℕ
wsaealready = 10037

abbrev pub wsaenotsock : ℕ
wsaenotsock = 10038

abbrev pub wsaedestaddrreq : ℕ
wsaedestaddrreq = 10039

abbrev pub wsaemsgsize : ℕ
wsaemsgsize = 10040

abbrev pub wsaeprototype : ℕ
wsaeprototype = 10041

abbrev pub wsaenoprotoopt : ℕ
wsaenoprotoopt = 10042

abbrev pub wsaeprotonosupport : ℕ
wsaeprotonosupport = 10043

abbrev pub wsaesocktnosupport : ℕ
wsaesocktnosupport = 10044

abbrev pub wsaeopnotsupp : ℕ
wsaeopnotsupp = 10045

abbrev pub wsaepfnosupport : ℕ
wsaepfnosupport = 10046

abbrev pub wsaeafnosupport : ℕ
wsaeafnosupport = 10047

abbrev pub wsaeaddrinuse : ℕ
wsaeaddrinuse = 10048

abbrev pub wsaeaddrnotavail : ℕ
wsaeaddrnotavail = 10049

abbrev pub wsaenetdown : ℕ
wsaenetdown = 10050

abbrev pub wsaenetunreach : ℕ
wsaenetunreach = 10051

abbrev pub wsaenetreset : ℕ
wsaenetreset = 10052

abbrev pub wsaeconnaborted : ℕ
wsaeconnaborted = 10053

abbrev pub wsaeconnreset : ℕ
wsaeconnreset = 10054

abbrev pub wsaenobufs : ℕ
wsaenobufs = 10055

abbrev pub wsaeisconn : ℕ
wsaeisconn = 10056

abbrev pub wsaenotconn : ℕ
wsaenotconn = 10057

abbrev pub wsaeshutdown : ℕ
wsaeshutdown = 10058

abbrev pub wsaetoomanyrefs : ℕ
wsaetoomanyrefs = 10059

abbrev pub wsaetimedout : ℕ
wsaetimedout = 10060

abbrev pub wsaeconnrefused : ℕ
wsaeconnrefused = 10061

abbrev pub wsaeloop : ℕ
wsaeloop = 10062

abbrev pub wsaenametoolong : ℕ
wsaenametoolong = 10063

abbrev pub wsaehostdown : ℕ
wsaehostdown = 10064

abbrev pub wsaehostunreach : ℕ
wsaehostunreach = 10065

abbrev pub wsaenotempty : ℕ
wsaenotempty = 10066

abbrev pub wsaeusers : ℕ
wsaeusers = 10068

abbrev pub wsaedquot : ℕ
wsaedquot = 10069

abbrev pub wsaestale : ℕ
wsaestale = 10070

abbrev pub wsaeremote : ℕ
wsaeremote = 10071
