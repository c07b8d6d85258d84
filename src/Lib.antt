-- ===== src/Lib.antt =====
-- A model of the state machines at the core of GraphicsEngine: the frame scheduler, the tracker of
-- Vulkan resource states, the coordinator of accesses to shared data, the render graph, the
-- resource manager, the starts and stops of the engine and the queue of commands to the main thread.
--
-- The engine's loop acquires a frame from the scheduler, updates it, waits for its draw checkpoint
-- and finalises it; the commands of a frame use buffers and images, for which the tracker works out
-- the barriers; and ECS systems and other jobs declare what they read and write to the access
-- coordinator, which orders them on the task system.
--
-- Frame models engine/controller/frame_scheduler.h and .cpp. Frame/Types has the handles, signals and
-- the fields of `FrameExecutionSlot`, Frame/Slot its methods under their own names in snake case,
-- and Frame/Scheduler the methods of `FrameScheduler`. The state goes in and comes out; a throw is an
-- error value. Every public method of the scheduler runs under one mutex, so that a history is a
-- sequence of calls. Shared futures are numbers, and each call is given the status of every future
-- at its time; times are numbers too. The list of destructor records stands for the arena.
--
-- ResourceState models graphics/vulkan/resource_state.h and .cpp. The constants of the Vulkan headers
-- are records that the definitions take, with the one documented fact that the code relies on:
-- `VK_WHOLE_SIZE` is the largest device size. ResourceState/Ranges has the helpers on tracked ranges,
-- ResourceState/Buffers the methods on buffers, ResourceState/Segments `TransitionBufferRanges`, and
-- ResourceState/Images the methods on images, with `TransitionImage` and the transactions in its
-- child Transitions. The two covering loops run on fuel, one unit for each byte that is to be
-- covered, and each round covers at least one byte; the loop over the aspects of an image runs on its
-- mask, which each round lowers.
--
-- Access models ecs/internal/access_coordinator.h and .cpp. Access/Scopes has the normal forms and the
-- overlap test, Access/Operations the operations and the scans over them, and Access/Coordinator the
-- state and one function for each critical section of a method. Access/Sections makes these sections
-- the steps of a history, in which the sections of different threads come in any order. What the task
-- system and the user functions do is an input: a submission may be refused at any time, and a run
-- ends with or without a fault.
--
-- RenderGraph models renderer/render_graph.h and .cpp. RenderGraph/Validation has the checks of
-- resources and uses, RenderGraph/Builder the methods that declare them, and the method `Compile` is
-- split into RenderGraph/Hazards, which validates the passes and turns hazards into edges,
-- RenderGraph/Order, which takes the passes out of the queue, and RenderGraph/Compile, which puts the
-- parts together. The loop over the queue runs on fuel, one unit for each pass and one to see that the
-- queue is empty, and it ends by its test. The descriptors that a graphics facade has for its handles,
-- and the targets that weak pointers still lock, are arguments. Of the clear values, which are floats,
-- only their validity is kept. All errors of the graph are the one error value of the source, so that
-- the reason of a refusal is not visible.
--
-- Resources models resources/resource_manager.h and .cpp with the handles, the identities and the
-- leases: Resources/Entries has the operations on one entry, Resources/Manager the methods, each under
-- the lock of the manager, and Resources/Manager/Calls the histories of calls. Payloads, errors and
-- type indices are numbers. Upload models graphics/vulkan/upload_layout.h.
--
-- MainExecutor models application/runtime/main_executor.h and .cpp. A command is a number by which the
-- state of its completion is found; each critical section of Start, Stop, Post and Drain is a function
-- on the state. MainExecutor/Scanning has the loop over the queue, MainExecutor/Selection the command
-- that a round takes, and MainExecutor/Fairness the histories of posts and rounds.
--
-- EngineState models engine/runtime/engine_state_manager.h and .cpp, with the calls that `Start` and
-- `Stop` of engine/engine.cpp make of it, as steps of a history. That the tasks of a run, which may
-- fail, are over when its stop completes is a condition of the step.
--
-- 64-bit sums are taken modulo 2 ^ 64 where the source does not exclude a wrap itself.
--
-- Not modelled: the memory that the arena hands out, log messages, the weak pointers that keep a
-- stopped coordinator's state from being used, the recording of barriers in a command buffer, the
-- hash of an image key, the moves of a transaction, the loaders of resources, what a
-- command to the main thread does and the wait for it, and the other parts of the
-- engine: the recording of its renderer, window, task system, math and the rest of the ECS.
pub mod Common
pub mod Frame
pub mod ResourceState
pub mod Access
pub mod RenderGraph
pub mod Resources
pub mod Upload
pub mod MainExecutor
pub mod EngineState
