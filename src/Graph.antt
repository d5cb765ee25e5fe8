-- ===== src/Graph.antt =====
-- The topology graph, internal/graph: what the records become, and the loop that writes it.
pub mod Parse
pub mod Writer
pub mod Loop
pub mod Sort
pub mod Retention
pub mod Values
pub mod Inventory
pub mod Search
pub mod Paths
pub mod Topology
pub mod Conditions
pub mod Routes
