-- ===== src/Strings.antt =====
-- The string routines of libsax/sax/os_api.c. A C string is the list of its bytes before the NUL.
pub mod Bounded
pub mod Compare
pub mod Url
pub mod Wild
pub mod Base64
mod Tests
