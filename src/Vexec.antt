-- ===== src/Vexec.antt =====
-- src/vexec.rs: running a program in a coroutine.
pub mod Start
pub mod Segments
pub mod Cache
pub mod Got
pub mod Exec
mod Tests
