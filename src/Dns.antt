-- ===== src/Dns.antt =====
-- internal/dns: the authoritative server's answers and the events that it records.
pub mod Messages
pub mod Answers
pub mod Server
pub mod Listen
pub mod Names
pub mod Safety
pub mod Recorded
pub mod Tests
