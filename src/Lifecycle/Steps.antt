-- ===== src/Lifecycle/Steps.antt =====
-- What the callbacks of the three lifecycle transactions do when they succeed.
mod Common
pub mod Validate
pub mod Mark
pub mod Resolve
pub use Common.{after_log, after_update}
