-- ===== src/Planning.antt =====
-- Planning of a deployment: the size of its guests, and several instances of a lab on one host.
pub mod Sizing
pub mod Taken
pub mod Budget
pub mod Instances
pub mod Options
pub mod Disjoint
pub mod Shifted
pub mod Moving
