-- ===== src/FormalPlanning/Forward.antt =====
-- supervisor/formal_planning.py: what `_monotonic_solve` decides.
mod Sound
pub mod Decides
