-- ===== src/Web.antt =====
-- The web server of the claim portal: rodeo/portal/web.py.
pub mod Limiter
pub mod Server
pub mod Counted
pub mod Limited
pub mod Fresh
pub mod Pruned
pub mod Window
