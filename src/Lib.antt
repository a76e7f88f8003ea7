-- ===== src/Lib.antt =====
-- Verification of the multirotor controller of px4_multirotor_controller: the part that decides, turn
-- by turn, in which flight state a vehicle is, what it asks of the flight controller, and which planner
-- sample or solver result it may use. The ROS and module edges feed this core with sensor data,
-- commands, planner samples and solver results, and carry out the effects of each turn.
--
-- One turn is DroneController::update, which sets the clock and calls FlightRuntime::update. That takes
-- a batch of commands, adds the signals deferred by the turn before, runs the health monitor, ticks the
-- active state, lets that state choose a transition, carries it out, and runs the debug monitor.
--
-- Prelude            shared names, lists measured by native numbers, integers
-- Double             the floating-point operations, as an interface without laws; Order
--                    has the laws of comparisons that theorems ask for, which hold for NaN too
-- Clock              include/.../common/controller_clock.h and state_machine/timing.h
-- Time               include/.../common/time.h: Time (here Stamp) and Duration, with what throws as
--                    none; Bounds, Order and Sums are about conversion, comparison and arithmetic,
--                    Search has the searches for the tick of a wake-up
-- Types              include/.../common/types.h, uav/flight_signal.h, uav/flight_effect.h
-- ResultBuffer       src/uav/nmpc_result_buffer.cpp; Steps has the calls as a step relation
-- Lifter             include/.../control/trajectory_lifter.h and uav/mpc_trajectory_buffer.h
-- SensorChecks       include/.../common/sensor_checks.h
-- Controller         src/drone_controller.cpp: the data that the states share
-- Health             src/uav/state_machine/health_monitor_state.cpp; Trip is about the trip of an
--                    unusable estimate, Around about the checks around it
-- Leaves             src/uav/state_machine: SelfCheck, Ready, the four takeoff states, Hover, Landing.
--                    A state is a record; onEnter, onTick and onExit are functions named
--                    landing_on_enter and so on. Confirm is the abstract view of how a state waits for
--                    frames in a row; Altctl, Requests, Ascent and Touchdown relate states to it
-- Cache              src/uav/active_trajectory_cache.cpp: what is read of the active reference; Horizon
--                    has the samples for the solver
-- Tracking           src/uav/state_machine/custom1_state.cpp: the state Custom1. Local, Smc, Nmpc and
--                    Dfbc are the backends' ticks, Session the entry, the dispatch to a backend and the
--                    exit, Wake the next wake-up; Leaf fills the interface that Flight sees. Emitted,
--                    Modes, Synchronous, Consumed and Turned follow the effects and signals of a tick,
--                    Run has runs and stays, Steady and Answers follow the attitude-rate target,
--                    Deadline and Awake the deadline of a request
-- Strategies         src/tracking: the strategies of Custom1; Dfbc has the attitude-rate strategy and
--                    include/.../common/control_feedback.h, Limits its output
-- Statistics         src/driver/sensor_statistics.cpp; Deadlines is about the grid of its deadlines,
--                    Windows and Receipts about the receipts it keeps
-- Flight             src/uav/flight_state.cpp: Turn and Choose are FlightChoose's handlers, Runtime is
--                    one turn, Wake the next wake-up, Timeout the deadlines of states; Shape
--                    names the parts of a turn, and the others are about turns and runs
-- Examples           concrete values, and the theorems at them
--
-- An operation that changes state takes the state and returns the new one. Doubles are an arbitrary
-- type with the operations the code uses; a theorem that needs a fact about them states it. The
-- controller and the signals, which in the source belong to two classes that refer to each other, are
-- one record. Locks make posting a command, taking a batch and each call of the result buffer one step.
-- The search for a tick runs on fuel, 64 halvings of a range
-- below 2^64; every other loop of the modelled code runs over a list. 64-bit counters that are only
-- incremented are numbers; the wrap-around of 32-bit and 64-bit time arithmetic is written out.
--
-- A call that can throw gives an option, with `none` for the exception, such as a time out of range.
-- Custom1 in Flight has an option as its data for this reason, and a read of the cache, which can also
-- fail, gives an option in an option. The solver's horizon has ten steps, as in the solver's header.
-- Parameters are the bits of the flags of a reference (Cache.FlagBits), the evaluators of references
-- (Cache.Evaluator), the flatness map (Cache.Horizon.Flatness), the sign functions of xgc2_math
-- (Tracking.Local.Sign) and its control laws (Strategies.SmcLaw, Strategies.Dfbc.DfbcLaw).
--
-- Not modelled: the holder of the active state, ::state_machine::adt::AdtMachine, which is not part of
-- the repository and is an interface with the laws of a cell that keeps a state and its entry time; the
-- updates of the trajectory cache, the execution of the NMPC solver with its generated code,
-- configuration parsing, logging, the library that generates references, and everything at the ROS and
-- module edges.
pub mod Prelude
pub mod Double
pub mod Cache
pub mod Clock
pub mod Time
pub mod Tracking
pub mod Statistics
pub mod Strategies
pub mod Types
pub mod ResultBuffer
pub mod Lifter
pub mod SensorChecks
pub mod Controller
pub mod Health
pub mod Leaves
pub mod Flight
pub mod Examples
