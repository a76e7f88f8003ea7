-- ===== src/Flight.antt =====
-- px4_multirotor_controller/src/uav/flight_state.cpp, include/.../uav/flight_state.h and
-- src/uav/state_machine/debug_monitor_state.cpp: the flight state machine, its ordered turn, and the
-- controller's update. The Custom1 state is an interface `Custom1` here: what the runtime calls of it.
-- The state holder ::state_machine::adt::AdtMachine is not part of the repository; the operations that
-- the runtime uses are the interface `AdtMachine`.
pub mod Turn
pub mod Choose
pub mod Debug
pub mod Runtime
pub mod Shape
pub mod Wake
pub mod Timeout
pub mod Preemption
pub mod Graph
pub mod Commands
pub mod Signals
pub mod States
pub mod Ascent
