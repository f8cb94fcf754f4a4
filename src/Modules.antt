-- ===== src/Modules.antt =====
-- src/modules: the parts that are modelled.
pub mod Ksym
pub mod Elf
pub mod Loader
mod Tests
