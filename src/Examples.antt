-- ===== src/Examples.antt =====
-- Concrete values of the types of px4_multirotor_controller, and runs of its operations on them.
pub mod FixedPoint
pub mod Values
mod Flights
mod Leaf
mod Buffers
mod Times
mod Sensors
mod Ticks
mod Thrust
mod Trackers
