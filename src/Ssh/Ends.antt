-- ===== src/Ssh/Ends.antt =====
-- Connecting and running a command come to an end, and the lock is released.
pub mod Client
pub mod Channel
pub mod Mutex
pub mod Commands
