-- ===== src/Tsort.antt =====
-- blivet/tsort.py: a graph of nodes and edges, and its topological sort. Nodes are numbers, as in
-- the module's only caller, blivet/actionlist.py, which sorts the positions of a list.
mod Graph
pub mod Fuel
pub mod Invariant
pub mod Rounds
pub mod Loop
pub mod Members
pub mod Start
pub mod Order
pub mod Complete
mod Tests
unfoldable pub use Graph.*
