-- ===== src/Frame/Types.antt =====
-- engine/controller/frame_scheduler.h: states, handles, signals, the arena and the slot's fields.
use graphics_engine.Common.{
  ℕ, Bool, true, false, not, ◌&&◌, Option, none, some, List, [], ℤ, pos, ◌==◌, max_u64,
}

pub data FrameState : Type 0 where
  free acquired waiting_update updating waiting_draw finalize submitted gpu_in_flight complete :
      FrameState

pub FrameState-discrete : Discrete FrameState
FrameState-discrete = hlevel

-- `==` on the enumeration.
abbrev pub state_code : FrameState → ℕ
state_code free = 0
state_code acquired = 1
state_code waiting_update = 2
state_code updating = 3
state_code waiting_draw = 4
state_code finalize = 5
state_code submitted = 6
state_code gpu_in_flight = 7
state_code complete = 8

abbrev pub state_eq : FrameState → FrameState → Bool
state_eq a b = state_code a == state_code b

-- `INVALID_FRAME_INDEX` and `INVALID_SLOT_INDEX`.
abbrev pub invalid_index : ℕ
invalid_index = max_u64

pub record FrameHandle : Type 0 where
  pub owner_id : ℕ
  pub application_frame_index : ℕ
  pub simulation_index : ℕ
  pub frame_slot_index : ℕ
  pub generation : ℕ

-- `FrameHandle::IsValid`.
abbrev pub is_valid : FrameHandle → Bool
is_valid h = not (h.owner_id == 0) && not (h.generation == 0)

pub record FrameSignal : Type 0 where
  pub is_set : Bool
  pub generation : ℕ
  pub application_frame_index : ℕ
  pub simulation_index : ℕ

abbrev pub no_signal : FrameSignal
no_signal = record {
  is_set = false;
  generation = 0;
  application_frame_index = invalid_index;
  simulation_index = invalid_index;
}

-- What `wait_for(0)` answers on a shared future. A future is named by a number, and the outside
-- world says how it stands at the time of a call.
pub data FutureStatus : Type 0 where
  ready timeout deferred : FutureStatus

abbrev pub is_ready : FutureStatus → Bool
is_ready ready = true
is_ready timeout = false
is_ready deferred = false

abbrev pub is_deferred : FutureStatus → Bool
is_deferred deferred = true
is_deferred ready = false
is_deferred timeout = false

abbrev pub World : Type 0
World = ℕ → FutureStatus

-- `completion.valid() && completion.wait_for(0) != deferred`; `none` is an invalid future.
abbrev pub is_external : World → Option ℕ → Bool
is_external world none = false
is_external world (some f) = not (is_deferred (world f))

-- `completion.valid() && completion.wait_for(0) == ready`.
abbrev pub has_signaled : World → Option ℕ → Bool
has_signaled world none = false
has_signaled world (some f) = is_ready (world f)

-- `FrameExecutionSlot`. Of the arena the model keeps the destructor records, the newest first.
pub record Slot : Type 0 where
  pub owner_id : ℕ
  pub slot_index : ℕ
  pub state : FrameState
  pub application_frame_index : ℕ
  pub simulation_index : ℕ
  pub generation : ℕ
  pub update_signal : FrameSignal
  pub draw_signal : FrameSignal
  pub simulation_started_at : Option ℕ
  pub delta_time : ℤ
  pub destructors : List ℕ
  pub gpu_completion : Option ℕ

-- The member initialisers.
abbrev pub default_slot : Slot
default_slot = record {
  owner_id = 0;
  slot_index = invalid_index;
  state = free;
  application_frame_index = invalid_index;
  simulation_index = invalid_index;
  generation = 0;
  update_signal = no_signal;
  draw_signal = no_signal;
  simulation_started_at = none;
  delta_time = pos 0;
  destructors = [];
  gpu_completion = none;
}
