-- ===== src/Auth.antt =====
-- redpanda/cloud/auth: the layered source of access tokens. Times are nanoseconds.
pub mod Cache
pub mod Source
pub mod Token
pub mod Retry
mod Tests
