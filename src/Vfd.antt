-- ===== src/Vfd.antt =====
-- src/vfd.rs: virtual file descriptors.
pub mod Pipe
pub mod Table
pub mod Share
pub mod Tables
mod Tests
