-- ===== src/Ffi.antt =====
-- src/ffi.rs: the functions that the library exports to C, and the driver of a session.
pub mod Fds
pub mod Context
pub mod Fork
pub mod Session
pub mod Driver
mod Tests
