-- ===== src/Drivers.antt =====
-- src/drivers: the parts that are modelled.
pub mod Block
mod Tests
