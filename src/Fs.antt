-- ===== src/Fs.antt =====
-- The kernel's file layer: kernel/fs.
pub mod Fat
pub mod Vfs
pub mod Console
pub mod Pipe
pub mod Buffer
pub mod FatTime
