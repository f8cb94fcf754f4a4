-- ===== src/Fs.antt =====
-- src/fs: the parts that are modelled.
pub mod Fd
pub mod Vfs
pub mod Initramfs
pub mod Mbr
pub mod Devfs
pub mod Gpt
mod Tests
