-- ===== src/Flight/Runtime.antt =====
-- src/uav/flight_state.cpp and src/drone_controller.cpp: the state of the runtime, the commands that
-- wait, and one turn. The lock on the pending commands makes postCommand and the start of a turn one
-- step each.
use xgc2_multirotor_controll.Prelude.{
  ℕ, suc, Bool, true, false, not, Option, none, some, leb, ◌==◌, ◌&&◌, ◌||◌, List, [], ◌∷◌, ◌++◌,
  map, length, take, drop, is_empty, has_value, if◌then◌else◌,
}
use xgc2_multirotor_controll.Prelude.Int.{◌-ℤ◌}
use xgc2_multirotor_controll.Double.{Double}
use xgc2_multirotor_controll.Types.{FlightCommand, takeoff, land, hover, track, FlightSignal}
use xgc2_multirotor_controll.Controller.{Controller, signal_id}
use xgc2_multirotor_controll.Health.{Health, health_on_tick, initial_health}
use xgc2_multirotor_controll.Leaves.Ground.{
  new_self_check, self_check_on_enter, self_check_on_tick, self_check_on_exit, ready_on_enter,
}
use xgc2_multirotor_controll.Leaves.Init.{init_on_enter, init_on_tick, init_on_exit}
use xgc2_multirotor_controll.Leaves.Request.{
  request_on_enter, offboard_on_tick, arm_on_tick, request_on_exit,
}
use xgc2_multirotor_controll.Leaves.Ascending.{
  ascending_on_enter, ascending_on_tick, ascending_on_event, ascending_on_exit,
}
use xgc2_multirotor_controll.Leaves.Hover.{
  hover_on_enter, hover_on_tick, hover_on_event, hover_on_exit,
}
use xgc2_multirotor_controll.Leaves.Landing.{landing_on_enter, landing_on_tick, landing_on_exit}
use xgc2_multirotor_controll.Flight.Turn.{
  Leaf, self_check, ready, takeoff_init, takeoff_offboard_request, takeoff_arm_request,
  takeoff_ascending, hovering, custom1, landing, Custom1, AdtMachine, stay, enter, Turn, Choice,
}
use xgc2_multirotor_controll.Flight.Choose.{choose}
use xgc2_multirotor_controll.Flight.Debug.{Debug, debug_on_tick, initial_debug}

-- FlightRuntime, with the DroneController that it drives; `X` is the state holder
pub record Runtime (F X : Type 0) : Type 0 where
  pub controller : Controller F
  pub health : Health F
  pub debug : Debug F
  pub machine : X
  pub pending_commands : List FlightCommand
  pub commands : List FlightCommand
  pub deferred_signals : List FlightSignal

unfoldable pub diagnostic_id : FlightCommand → ℕ
diagnostic_id takeoff = 1
diagnostic_id land = 2
diagnostic_id hover = 3
diagnostic_id track = 6

abbrev pub pending_capacity : ℕ
pending_capacity = 4096

abbrev pub batch_limit : ℕ
batch_limit = 64

unfoldable pub post_command : {F X : Type 0} → FlightCommand → Runtime F X → Runtime F X × Bool
post_command command rt =
    if leb pending_capacity (length rt.pending_commands)
    then (rt, false)
    else (record rt { pending_commands = rt.pending_commands ++ (command ∷ []) }, true)

abbrev pub is_selected : Option ℕ → ℕ → Bool
is_selected none i = false
is_selected (some k) i = k == i

-- The signals from position `start` on, counted from `i`, but the selected one.
unfoldable pub unconsumed : ℕ → ℕ → Option ℕ → List FlightSignal → List FlightSignal
unconsumed start i selected [] = []
unconsumed start i selected (s ∷ ss) =
    let rest = unconsumed start (suc i) selected ss in
    if leb start i && not (is_selected selected i) then s ∷ rest else rest

module _ {F C : Type 0} ⦃d : Double F⦄ (ops : Custom1 F C) where
  unfoldable pub on_enter : Leaf F C → Controller F → Leaf F C × Controller F
  on_enter (self_check s) c = (self_check (self_check_on_enter s c), c)
  on_enter ready c = (ready, ready_on_enter c)
  on_enter (takeoff_init s) c = let (s', c') = init_on_enter s c in (takeoff_init s', c')
  on_enter (takeoff_offboard_request s) c =
      let (s', c') = request_on_enter s c in (takeoff_offboard_request s', c')
  on_enter (takeoff_arm_request s) c =
      let (s', c') = request_on_enter s c in (takeoff_arm_request s', c')
  on_enter (takeoff_ascending s) c =
      let (s', c') = ascending_on_enter s c in (takeoff_ascending s', c')
  on_enter (hovering s) c = let (s', c') = hover_on_enter s c in (hovering s', c')
  on_enter (custom1 s) c = let (s', c') = ops.on_enter s c in (custom1 s', c')
  on_enter (landing s) c = let (s', c') = landing_on_enter s c in (landing s', c')

  unfoldable pub on_tick : F → Leaf F C → Controller F → Leaf F C × Controller F
  on_tick elapsed (self_check s) c = (self_check (self_check_on_tick s c), c)
  on_tick elapsed ready c = (ready, c)
  on_tick elapsed (takeoff_init s) c = let (s', c') = init_on_tick s c in (takeoff_init s', c')
  on_tick elapsed (takeoff_offboard_request s) c =
      let (s', c') = offboard_on_tick s c in (takeoff_offboard_request s', c')
  on_tick elapsed (takeoff_arm_request s) c =
      let (s', c') = arm_on_tick s c in (takeoff_arm_request s', c')
  on_tick elapsed (takeoff_ascending s) c =
      let (s', c') = ascending_on_tick elapsed s c in (takeoff_ascending s', c')
  on_tick elapsed (hovering s) c = let (s', c') = hover_on_tick s c in (hovering s', c')
  on_tick elapsed (custom1 s) c = let (s', c') = ops.on_tick s c in (custom1 s', c')
  on_tick elapsed (landing s) c = let (s', c') = landing_on_tick elapsed s c in (landing s', c')

  unfoldable pub on_exit : Leaf F C → Controller F → Leaf F C × Controller F
  on_exit (self_check s) c = (self_check (self_check_on_exit s), c)
  on_exit ready c = (ready, c)
  on_exit (takeoff_init s) c = (takeoff_init (init_on_exit s), c)
  on_exit (takeoff_offboard_request s) c = (takeoff_offboard_request (request_on_exit s), c)
  on_exit (takeoff_arm_request s) c = (takeoff_arm_request (request_on_exit s), c)
  on_exit (takeoff_ascending s) c = (takeoff_ascending (ascending_on_exit s), c)
  on_exit (hovering s) c = (hovering (hover_on_exit s), c)
  on_exit (custom1 s) c = let (s', c') = ops.on_exit s c in (custom1 s', c')
  on_exit (landing s) c = (landing (landing_on_exit s), c)

  -- only Hover and TakeoffAscending handle a command
  unfoldable pub on_command : Leaf F C → FlightCommand → Controller F → Controller F
  on_command (takeoff_ascending s) command c = ascending_on_event command c
  on_command (hovering s) command c = hover_on_event command c
  on_command _ command c = c

  unfoldable pub on_commands : Leaf F C → List FlightCommand → Controller F → Controller F
  on_commands leaf [] c = c
  on_commands leaf (command ∷ rest) c = on_commands leaf rest (on_command leaf command c)

  module _ {X : Type 0} (m : AdtMachine (Leaf F C) X) where
    -- `duration<double>(elapsed()).count()`
    unfoldable pub elapsed_seconds : X → Controller F → F
    elapsed_seconds x c = d.of_clock (d.to_clock c.current_time -ℤ m.entered_at x)

    -- The part of a turn before the choice: the batch of commands, the signals that were deferred, the
    -- health checks and the active leaf. The number is where the signals of the leaf start.
    unfoldable pub before_choice : Runtime F X → Runtime F X × ℕ
    before_choice rt =
        let fresh = length rt.controller.signals in
        let batch = take batch_limit rt.pending_commands in
        let c0 = record rt.controller {
          signals = rt.controller.signals ++ rt.deferred_signals;
          diagnostic_events = map diagnostic_id batch;
        } in
        let (h, c1) = health_on_tick rt.health c0 in
        let c2 = record c1 {
          diagnostic_events = c1.diagnostic_events ++ map signal_id (take fresh c1.signals);
        } in
        let (leaf, c3) = on_tick (elapsed_seconds rt.machine c2) (m.state rt.machine) c2 in
        (
          record rt {
            controller = c3;
            health = h;
            machine = m.put leaf rt.machine;
            pending_commands = drop batch_limit rt.pending_commands;
            commands = batch;
            deferred_signals = [];
          },
          length c2.signals,
        )

    unfoldable pub turn_of : Runtime F X → Turn F
    turn_of rt = record {
      controller = rt.controller;
      commands = rt.commands;
      distance = rt.health.position_distance;
      elapsed = elapsed_seconds rt.machine rt.controller;
    }

    -- The transition, or the commands of a turn that stays; whether a transition was made.
    unfoldable pub carry_out : Choice F C → Runtime F X → Runtime F X × Bool
    carry_out choice rt = elim choice.outcome [
      | stay ↦ (
        record rt { controller = on_commands (m.state rt.machine) rt.commands rt.controller },
        false,
      )
      | enter next ↦
          let silent = not (has_value choice.selected_signal) && not choice.selected_command in
          let c0 = rt.controller in
          let c1 = record c0 {
            diagnostic_events =
                if silent then c0.diagnostic_events ++ (0 ∷ []) else c0.diagnostic_events;
          } in
          let (leaving, c2) = on_exit (m.state rt.machine) c1 in
          let applied = m.apply next (d.to_clock c2.current_time) (m.put leaving rt.machine) in
          let (entered, c3) = on_enter (m.state applied) c2 in
          (record rt { controller = c3; machine = m.put entered applied }, true)
    ]

    -- The part after the transition: what is deferred to the next turn, the diagnostics, and whether
    -- another turn is due at once.
    unfoldable pub after_choice : ℕ → Choice F C → Bool → Runtime F X → Runtime F X × Bool
    after_choice start choice transitioned rt =
        let kept = unconsumed start 0 choice.selected_signal rt.controller.signals in
        let (dbg, c1) = debug_on_tick rt.debug rt.controller in
        (
          record rt {
            controller = record c1 { signals = [] };
            debug = dbg;
            deferred_signals = kept;
          },
          transitioned || not (is_empty rt.pending_commands) || not (is_empty kept),
        )

    -- FlightRuntime::update
    unfoldable pub flight_update : Runtime F X → Runtime F X × Bool
    unfolding after_choice carry_out turn_of before_choice
    flight_update rt =
        let (ticked, start) = before_choice rt in
        let choice = choose ops (m.state ticked.machine) (turn_of ticked) in
        let (moved, transitioned) = carry_out choice ticked in
        after_choice start choice transitioned moved

    -- DroneController::update; the sensor data is written between two updates
    unfoldable pub update : F → Runtime F X → Runtime F X × Bool
    unfolding flight_update
    update current_time rt = flight_update (record rt {
      controller = record rt.controller { effects = []; current_time = current_time };
    })

    -- the constructor, on a controller in its initial state
    unfoldable pub new_runtime : Controller F → Runtime F X
    new_runtime c =
        let machine = m.start (self_check new_self_check) (d.to_clock c.current_time) in
        let (entered, c') = on_enter (m.state machine) c in
        record {
          controller = c';
          health = initial_health;
          debug = initial_debug;
          machine = m.put entered machine;
          pending_commands = [];
          commands = [];
          deferred_signals = [];
        }
