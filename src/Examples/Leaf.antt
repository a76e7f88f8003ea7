-- ===== src/Examples/Leaf.antt =====
-- The waiting states and the health monitor on the vehicle of Examples.Values.
use xgc2_multirotor_controll.Prelude.{◌+◌, ◌≡◌, refl, true, not, List, [], ◌∷◌, ◌++◌, map, ◌&&◌}
use xgc2_multirotor_controll.Prelude.Int.{ℤ, pos, ◌-ℤ◌}
use xgc2_multirotor_controll.Types.{arm_ready, altctl_ready}
use xgc2_multirotor_controll.Controller.{Controller}
use xgc2_multirotor_controll.Leaves.Confirm.{reached, signal_when_reached}
use xgc2_multirotor_controll.Leaves.Request.{Request, new_request, request_on_enter, arm_on_tick}
use xgc2_multirotor_controll.Leaves.Requests.{arm_frame, arm_run, arm_ready_exact}
use xgc2_multirotor_controll.Leaves.Init.{
  TakeoffInit, new_takeoff_init, init_on_enter, init_on_tick,
}
use xgc2_multirotor_controll.Leaves.Altctl.{altctl_frame, altctl_run, altctl_ready_exact}
use xgc2_multirotor_controll.Leaves.Ascending.{
  Ascending, new_ascending, ascending_on_enter, ascending_on_tick,
}
use xgc2_multirotor_controll.Leaves.Ascent.{
  ascending_run, timed_out, arrived, ascent_signals, ascent_exact,
}
use xgc2_multirotor_controll.Leaves.Landing.{
  Landing, new_landing, landing_on_enter, landing_on_tick,
}
use xgc2_multirotor_controll.Leaves.Touchdown.{
  landing_run, frames, touched_down, touchdown_signal, touchdown_exact,
}
use xgc2_multirotor_controll.Health.{health_on_tick}
use xgc2_multirotor_controll.Health.Around.{trips, once}
use xgc2_multirotor_controll.Health.Trip.{estimate_run, has_tripped, estimate_trip_exact}
use xgc2_multirotor_controll.Examples.FixedPoint.{milli}
use xgc2_multirotor_controll.Examples.Values.{controller, at_altitude}

-- the vehicle in the air, armed, in the OFFBOARD mode
abbrev flying : Controller ℤ
flying = record controller {
  sensor = record controller.sensor {
    fcu_mode = "OFFBOARD";
    fcu_armed = true;
    estimate = at_altitude (pos 1000);
  };
}

-- on the ground with an estimate that must not be used
abbrev faulty : Controller ℤ
faulty = record controller { sensor = record controller.sensor { estimator_flags = 256 } }

abbrev requesting : Request ℤ
requesting = (request_on_enter new_request controller).0

arm_ready_exact_example :
    let before = arm_run requesting (controller ∷ []) in
    (before.ready_event_posted ≡ reached 1 (map arm_frame (controller ∷ [])))
    × ((arm_on_tick before flying).1.signals
        ≡ flying.signals
          ++ signal_when_reached 1 arm_ready (arm_frame flying) (map arm_frame (controller ∷ [])))
arm_ready_exact_example = arm_ready_exact new_request controller (controller ∷ []) flying

-- four ticks on the ground after one in the air
abbrev descent : List (ℤ × Controller ℤ)
descent =
    (pos 500, controller)
    ∷ (pos 400, controller)
    ∷ (pos 300, controller)
    ∷ (pos 200, controller)
    ∷ (pos 100, flying)
    ∷ []

abbrev descending : Landing ℤ
descending = landing_run (landing_on_enter new_landing flying).0 descent

touchdown_exact_example :
    (descending.touchdown_event_posted ≡ touched_down (frames descent))
    × ((landing_on_tick (pos 600) descending controller).1.signals
        ≡ controller.signals ++ touchdown_signal controller (frames descent))
touchdown_exact_example = touchdown_exact new_landing flying descent (pos 600) controller

abbrev faults : List (Controller ℤ)
faults = record faulty { current_time = pos 2000 } ∷ controller ∷ []

estimate_trip_exact_example :
    let late = record faulty { current_time = pos 2200 } in
    ((estimate_run (late ∷ faults)).state_estimate_unusable ≡ has_tripped (late ∷ faults))
    × (trips (health_on_tick (estimate_run faults) late).1.signals
        ≡ trips late.signals + once (not (has_tripped faults) && has_tripped (late ∷ faults)))
unfolding ◌-ℤ◌
estimate_trip_exact_example =
    estimate_trip_exact faults (record faulty { current_time = pos 2200 }) (refl, refl)
      ((refl, refl), ((refl, refl), ((refl, refl), tt)))

abbrev initializing : TakeoffInit ℤ
initializing = altctl_run (init_on_enter new_takeoff_init controller).0 (controller ∷ [])

altctl_ready_exact_example :
    (initializing.altctl_ready_event_posted ≡ reached 2 (map altctl_frame (controller ∷ [])))
    × ((init_on_tick initializing controller).1.signals
        ≡ controller.signals
          ++ signal_when_reached 2 altctl_ready
              (altctl_frame controller)
              (map altctl_frame (controller ∷ [])))
altctl_ready_exact_example =
    altctl_ready_exact new_takeoff_init controller (controller ∷ []) controller refl

-- at the target altitude, and then thirty-one seconds after the entry
abbrev climb : List (ℤ × Controller ℤ)
climb = (pos 31000, flying) ∷ (pos 200, flying) ∷ (pos 100, controller) ∷ []

abbrev climbing : Ascending ℤ
climbing = ascending_run (ascending_on_enter new_ascending controller).0 climb

ascent_exact_example :
    (climbing.timeout_event_posted ≡ timed_out climb)
    × (climbing.altitude_reached_event_posted ≡ arrived climb)
    × ((ascending_on_tick (pos 31100) climbing flying).1.signals
        ≡ flying.signals ++ ascent_signals (pos 31100, flying) climb)
ascent_exact_example = ascent_exact new_ascending controller climb (pos 31100) flying
