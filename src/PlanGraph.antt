-- ===== src/PlanGraph.antt =====
-- scripts/plan_graph.py: the dependency graph of a plan and its output contracts.
-- `Steps` reads the graph, `Order` sorts it, `Closure` takes its transitive closure and `Outputs`
-- checks the outputs that the edges carry. `Graphs` says what a graph is and `Dependencies`, `Kahn`,
-- `Ancestors` hold the proofs.
pub mod Steps
pub mod Order
pub mod Closure
pub mod Outputs
pub mod Graphs
pub mod Dependencies
pub mod Kahn
pub mod Ancestors
pub mod Declared
