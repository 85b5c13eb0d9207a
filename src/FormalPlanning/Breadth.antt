-- ===== src/FormalPlanning/Breadth.antt =====
-- supervisor/formal_planning.py: what `_search_solve` decides.
mod Sound
mod Adds
pub mod Future
mod States
mod Rounds
pub mod Decides
