-- ===== src/Preload.antt =====
-- src/preload.rs: the intercepted functions of the C library.
pub mod Paths
pub mod Host
pub mod Fds
pub mod Calls
pub mod Execve
pub mod Leave
pub mod Open
pub mod Poll
pub mod Select
pub mod Process
pub mod Pipes
mod Tests
