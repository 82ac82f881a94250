-- ===== src/Portal.antt =====
-- The claim portal: rodeo/portal/db.py and rodeo/portal/claims.py.
pub mod Python
pub mod Text
pub mod Db
pub mod Tx
pub mod Pin
pub mod Settings
pub mod Students
pub mod Roster
pub mod Instructor
pub mod Requests
pub mod Claiming
pub mod Assignment
pub mod Recovery
pub mod Lockout
pub mod Moves
pub mod Removal
pub mod Publishing
pub mod Return
pub mod PinRules
