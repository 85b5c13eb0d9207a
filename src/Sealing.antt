-- ===== src/Sealing.antt =====
-- supervisor/sealing.py: the seal of a plan and what may change behind it. `Seals` and `Files` are the seal and
-- its documents, `Changes`, `Multisets`, `Steps` and `Monotonic` are `check_monotonic`; `Sealed` and `Kept` hold the
-- proofs.
pub mod Multisets
pub mod Changes
pub mod Steps
pub mod Monotonic
pub mod Seals
pub mod Files
pub mod Sealed
pub mod Kept
