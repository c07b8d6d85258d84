-- ===== src/RenderGraph.antt =====
-- renderer/render_graph.h and .cpp: the builder of a frame's render graph and its compilation.
pub mod Types
pub mod Validation
pub mod Builder
pub mod Hazards
pub mod Order
pub mod Compile
mod Tests
