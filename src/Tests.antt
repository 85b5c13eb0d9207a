-- ===== src/Tests.antt =====
-- Runs of the definitions on small inputs, and the theorems at such inputs.
mod Language
mod Graph
mod Planner
mod Contracts
mod Analysis
mod Rulings
mod Completion
mod Tasks
mod Audits
mod Records
mod Seals
mod Policy
mod Trust
mod Covers
