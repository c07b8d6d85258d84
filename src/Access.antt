-- ===== src/Access.antt =====
-- ecs/internal/access_coordinator.h and .cpp: operations on shared data, ordered by the data that
-- they declare.
pub mod Types
pub mod Scopes
pub mod Operations
pub mod Coordinator
pub mod Sections
mod Tests
