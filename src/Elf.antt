-- ===== src/Elf.antt =====
-- src/elf: the loader of programs.
pub mod Loader
mod Tests
