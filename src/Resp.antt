-- ===== src/Resp.antt =====
-- The Redis protocol as redis-6.0.2/library.c writes it: commands as arrays of bulk strings.
pub mod Sstr
pub mod Server
pub mod RoundTrip
pub mod Spprintf
pub mod Tests
