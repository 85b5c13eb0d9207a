-- ===== src/Evidence.antt =====
-- supervisor/evidence.py: the hash chain of evidence records, its archives and its authenticated head.
-- `Chain` verifies one file, `Archives` the archives behind it, `Signing` authenticates them.
pub mod Chain
pub mod Linked
pub mod Archives
pub mod Anchors
pub mod Signing
pub mod Signed
pub mod Heads
