-- ===== src/Frame.antt =====
-- engine/controller/frame_scheduler.h and .cpp: the life of a frame in its execution slot, and the
-- scheduler that hands slots out in order.
pub mod Types
pub mod Slot
pub mod Scheduler
mod Tests
