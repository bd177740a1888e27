-- ===== src/Raf.antt =====
-- The record database (src/corelib/rafdb): files, signatures, entry tables and record files.
pub mod File
pub mod Id
pub mod Magic
pub mod Entry
pub mod Record
pub mod Tbatch
pub mod Kernel
pub mod Rtenv
pub mod Capsule
pub mod Task
