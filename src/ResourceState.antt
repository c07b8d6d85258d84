-- ===== src/ResourceState.antt =====
-- graphics/vulkan/resource_state.h and .cpp: which pipeline stages, accesses and queue family last
-- used each byte of a buffer, and the barriers that a new use needs.
pub mod Types
pub mod Ranges
pub mod Buffers
pub mod Segments
pub mod Images
mod Tests
