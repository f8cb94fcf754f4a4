-- ===== src/Arch.antt =====
-- src/arch/x86_64: the parts that are modelled.
pub mod Thread
pub mod Idt
pub mod Gdt
mod Tests
