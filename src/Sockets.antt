-- ===== src/Sockets.antt =====
-- libuzi/winsock.c: the number of the last error, and the calls that do more than pass on.
pub mod Wsa
pub mod Errno
pub mod Defs
pub mod LastError
pub mod Calls
pub mod Blocking
mod Tests
