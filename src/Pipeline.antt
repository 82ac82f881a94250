-- ===== src/Pipeline.antt =====
-- The deploy pipeline: the record of finished phases, the profiles and the runner.
pub mod State
pub mod Profile
pub mod Engine
pub mod Vars
pub mod Runner
pub mod Status
pub mod Records
pub mod Steps
pub mod Rounds
pub mod Resume
pub mod Failure
pub mod Recorded
pub mod Starting
pub mod Prepared
pub mod From
pub mod Completion
pub mod Registry
pub mod Registered
