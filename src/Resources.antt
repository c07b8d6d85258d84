-- ===== src/Resources.antt =====
-- resources: the handles, the life cycle and the identity index of the resource manager.
pub mod Types
pub mod Entries
pub mod Manager
mod Tests
