-- ===== src/Fleet.antt =====
-- A workshop: its inventory of hosts, what the commands select from it, and what they write to it.
pub mod Inventory
pub mod Hostname
pub mod PortalBlock
pub mod Loading
pub mod Selecting
pub mod Provisioned
pub mod Job
pub mod Fanout
pub mod Gathered
pub mod Jobs
pub mod Hosts
pub mod WellFormed
pub mod Selected
pub mod Keyed
pub mod Written
pub mod Merged
