-- ===== src/Leaves.antt =====
-- px4_multirotor_controller/src/uav/state_machine: the flight states other than Custom1. Each has its
-- data as a record and its onEnter, onTick and onExit as functions on that record and the controller;
-- the timers that only throttle a log are kept where they drive the next wake-up.
pub mod Common
pub mod Ground
pub mod Init
pub mod Request
pub mod Ascending
pub mod Hover
pub mod Landing
pub mod Confirm
pub mod Requests
pub mod Touchdown
pub mod Altctl
pub mod Ascent
