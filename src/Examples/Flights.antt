-- ===== src/Examples/Flights.antt =====
-- Turns and updates of the flight machine on the vehicle of Examples.Values.
use xgc2_multirotor_controll.Prelude.{
  ◌≡◌, ◌≤◌, ◌↔◌, ◌⊎◌, refl, true, false, some, [], ◌∷◌, ◌++◌, length, arith,
}
use xgc2_multirotor_controll.Prelude.Int.{ℤ, pos}
use xgc2_multirotor_controll.Types.{
  land, hover, takeoff, geofence, velocity_z, altitude_reached, tracking_uses_fused_estimate,
}
use xgc2_multirotor_controll.Controller.{signal_id}
use xgc2_multirotor_controll.Leaves.Hover.{new_hover}
use xgc2_multirotor_controll.Leaves.Init.{new_takeoff_init}
use xgc2_multirotor_controll.Leaves.Landing.{new_landing}
use xgc2_multirotor_controll.Leaves.Ground.{new_self_check}
use xgc2_multirotor_controll.SensorChecks.{
  are_sensors_ready, are_base_sensors_active, is_control_state_active,
  is_control_state_usable_for_control, is_state_estimate_usable_for_control,
}
use xgc2_multirotor_controll.Flight.Turn.{
  hovering, takeoff_init, ready, self_check, landing, Turn, enter, stay, has_signal, has_command,
  command_id,
}
use xgc2_multirotor_controll.Flight.Choose.{
  safety_order, first_present, choose, entering_by_signal, choose_self_check,
}
use xgc2_multirotor_controll.Flight.Preemption.{
  safety_signal_lands, land_command_lands, distance_exceeded_lands,
}
use xgc2_multirotor_controll.Flight.Graph.{◌⟶◌, flight_state, FlightState, choose-⟶}
use xgc2_multirotor_controll.Flight.Runtime.{
  Runtime, update, post_command, batch_limit, pending_capacity,
}
use xgc2_multirotor_controll.Flight.Shape.{chosen}
use xgc2_multirotor_controll.Flight.States.{state_of, start, updated, update_state}
use xgc2_multirotor_controll.Flight.Ascent.{prepared, flown_after_arm_request}
use xgc2_multirotor_controll.Flight.Commands.{
  CommandRun, start as no_turns, accepted, update_batch_fifo, commands_fifo, commands_bounded,
}
use xgc2_multirotor_controll.Examples.FixedPoint.{milli}
use xgc2_multirotor_controll.Examples.Values.{
  controller, idle_tracking, machine, machine_laws, runtime, FlightLeaf,
}

-- two safety signals after a signal of the ascent, a Hover command and too great a distance
abbrev turn : Turn ℤ
turn = record {
  controller = record controller { signals = altitude_reached ∷ velocity_z ∷ geofence ∷ [] };
  commands = hover ∷ land ∷ [];
  distance = record { metres = pos 2000; available = true; exceeded = true };
  elapsed = pos 1000;
}

abbrev hovering_leaf : FlightLeaf
hovering_leaf = hovering new_hover

safety_signal_lands_example :
    (s : _) × (has_signal turn.controller.signals s ≡ true)
    × (first_present turn.controller.signals safety_order ≡ some s)
    × (choose idle_tracking hovering_leaf turn ≡ entering_by_signal turn s (landing new_landing))
unfolding has_signal signal_id
safety_signal_lands_example = safety_signal_lands idle_tracking hovering_leaf turn refl refl

land_command_lands_example :
    (choose idle_tracking hovering_leaf turn).outcome ≡ enter (landing new_landing)
unfolding has_command command_id
land_command_lands_example = land_command_lands idle_tracking hovering_leaf turn refl refl

distance_exceeded_lands_example :
    (choose idle_tracking (takeoff_init new_takeoff_init) turn).outcome
    ≡ enter (landing new_landing)
distance_exceeded_lands_example =
    distance_exceeded_lands idle_tracking (takeoff_init new_takeoff_init) turn refl refl

choose-⟶_example : FlightState.self_check ⟶ FlightState.ready
unfolding choose choose_self_check are_sensors_ready are_base_sensors_active is_control_state_active
    is_control_state_usable_for_control is_state_estimate_usable_for_control
    tracking_uses_fused_estimate
choose-⟶_example = choose-⟶ idle_tracking (self_check new_self_check) turn ready refl

update_state_example :
    let after = (update idle_tracking machine (pos 1000) runtime).0 in
    ((chosen idle_tracking machine (pos 1000) runtime).outcome ≡ stay
      × (state_of idle_tracking machine after ≡ state_of idle_tracking machine runtime)
      × (machine.entered_at after.machine ≡ machine.entered_at runtime.machine))
    ⊎ ((next : FlightLeaf) × ((chosen idle_tracking machine (pos 1000) runtime).outcome
          ≡ enter next)
        × (state_of idle_tracking machine after ≡ flight_state next)
        × (state_of idle_tracking machine runtime ⟶ flight_state next))
update_state_example = update_state idle_tracking machine machine_laws (pos 1000) runtime

abbrev after_update : Runtime ℤ (FlightLeaf × ℤ)
after_update = (update idle_tracking machine (pos 1000) runtime).0

flown_after_arm_request_example :
    prepared
      (state_of idle_tracking machine after_update)
      (state_of idle_tracking machine after_update ∷ [])
    ≡ true
flown_after_arm_request_example =
    flown_after_arm_request idle_tracking machine machine_laws runtime
      (state_of idle_tracking machine after_update ∷ []) after_update
      (updated (pos 1000) (start runtime)) refl

abbrev posted : Runtime ℤ (FlightLeaf × ℤ)
posted = (post_command takeoff runtime).0

posted_run : CommandRun idle_tracking machine runtime (takeoff ∷ []) [] posted
unfolding post_command
posted_run = accepted takeoff (no_turns runtime) refl

commands_fifo_example : posted.pending_commands ≡ takeoff ∷ []
commands_fifo_example =
    commands_fifo idle_tracking machine runtime (takeoff ∷ []) [] posted posted_run

commands_bounded_example :
    (length posted.pending_commands ≤ pending_capacity)
    × ((post_command land posted).1 ≡ false ↔ length posted.pending_commands ≡ pending_capacity)
commands_bounded_example =
    commands_bounded idle_tracking machine runtime (takeoff ∷ []) [] posted posted_run (omega arith)
      land

update_batch_fifo_example :
    let after = (update idle_tracking machine (pos 1000) posted).0 in
    (after.commands ++ after.pending_commands ≡ posted.pending_commands)
    × (length after.commands ≤ batch_limit)
    × (length after.commands ≡ batch_limit ⊎ after.pending_commands ≡ [])
update_batch_fifo_example = update_batch_fifo idle_tracking machine (pos 1000) posted
