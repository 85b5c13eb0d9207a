-- ===== src/Coverage.antt =====
-- supervisor/coverage.py: which requirements of a plan its steps cover. `Requirements` reads the
-- requirements, `Analysis` is `analyze_coverage`, `Required`, `Clean` and `Covered` hold the proofs.
pub mod Requirements
pub mod Analysis
pub mod Required
pub mod Clean
pub mod Covered
