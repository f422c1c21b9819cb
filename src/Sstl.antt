-- ===== src/Sstl.antt =====
-- The kernel's own containers, sstl/.
pub mod HashMap
