-- ===== src/Threads.antt =====
-- Programs of apue.3e/threads.
pub mod Jobs
pub mod References
mod Tests
