-- ===== src/Topology.antt =====
-- The machines of a lab, rendered from its definition, and the network they are plugged into.
pub mod Nodes
pub mod Cables
pub mod Rendered
pub mod Reserved
