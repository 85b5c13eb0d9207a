-- ===== src/PlanGraph/Kahn.antt =====
-- scripts/plan_graph.py: what `topological_order` computes.
mod Links
mod Release
mod Rounds
pub mod Decides
