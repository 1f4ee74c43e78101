-- ===== src/Elf.antt =====
-- src/elf.rs: the reader of ELF64 files. A file is the list of its bytes. `usize` and `u64` have 64
-- bits, and their sums wrap around as in a release build.
pub mod Format
pub mod Headers
pub mod Dynamic
mod Tests
