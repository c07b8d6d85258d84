-- ===== src/Frame/Slot/Graph.antt =====
-- The life cycle that the slot's methods implement, with the counters left out.
use graphics_engine.Frame.Types.{
  FrameState, free, acquired, waiting_update, updating, waiting_draw, finalize, submitted,
  gpu_in_flight, complete, Slot,
}

-- The states in which a frame may be aborted.
pub data CanAbort : FrameState → Type 0 where
  from_acquired : CanAbort acquired
  from_waiting_update : CanAbort waiting_update
  from_updating : CanAbort updating
  from_waiting_draw : CanAbort waiting_draw
  from_finalize : CanAbort finalize
  from_complete : CanAbort complete

infix 40 ◌⟶◌
pub data ◌⟶◌ : FrameState → FrameState → Type 0 where
  by_stay : {s : FrameState} → s ⟶ s
  by_arm : acquired ⟶ waiting_update
  by_begin_update : waiting_update ⟶ updating
  by_end_update : updating ⟶ waiting_draw
  by_begin_finalize : waiting_draw ⟶ finalize
  by_finish : finalize ⟶ complete
  by_submit : finalize ⟶ submitted
  by_begin_gpu : submitted ⟶ gpu_in_flight
  by_complete_gpu : gpu_in_flight ⟶ complete
  by_recycle : complete ⟶ free
  by_abort : {s : FrameState} → CanAbort s → s ⟶ free

ruleset edges = (
  by_stay, by_arm, by_begin_update, by_end_update, by_begin_finalize, by_finish, by_submit,
  by_begin_gpu, by_complete_gpu, by_recycle,
)

ruleset abortable = (
  from_acquired, from_waiting_update, from_updating, from_waiting_draw, from_finalize,
  from_complete,
)
