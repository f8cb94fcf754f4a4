-- ===== src/Mm.antt =====
-- Memory management: the physical page bitmap, the page tables and the kernel heap (src/mm).
pub mod Pmm
pub mod Vmm
pub mod Heap
mod Tests
