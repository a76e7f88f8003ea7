-- ===== src/Flight/Debug.antt =====
-- px4_multirotor_controller/src/uav/state_machine/debug_monitor_state.cpp.
use xgc2_multirotor_controll.Prelude.{Bool, true, false, not, ◌||◌, is_empty, if◌then◌else◌}
use xgc2_multirotor_controll.Double.{Double, fmin}
use xgc2_multirotor_controll.Clock.{controller_due_at}
use xgc2_multirotor_controll.Types.{
  flight_events, flight_status, flight_sensor_stats, flight_tracking_error, flight_sensor_debug,
}
use xgc2_multirotor_controll.Controller.{Controller, emit_flight_effect}

pub record Debug (F : Type 0) : Type 0 where
  pub last_status_publish_time : F
  pub last_debug_print_time : F
  pub status_publish_initialized : Bool
  pub debug_print_initialized : Bool

module _ {F : Type 0} ⦃d : Double F⦄ where
  open d use {lit, sub, le}

  abbrev pub initial_debug : Debug F
  initial_debug = record {
    last_status_publish_time = lit 0 0;
    last_debug_print_time = lit 0 0;
    status_publish_initialized = false;
    debug_print_initialized = false;
  }

  abbrev status_publish_interval : F
  status_publish_interval = lit 2 1

  abbrev debug_print_interval : F
  debug_print_interval = lit 1 0

  unfoldable pub debug_next_wake : Debug F → F → F
  debug_next_wake s now =
      let status =
        if s.status_publish_initialized
        then controller_due_at s.last_status_publish_time status_publish_interval
        else now in
      let debug =
        if s.debug_print_initialized
        then controller_due_at s.last_debug_print_time debug_print_interval
        else now in
      fmin status debug

  unfoldable pub debug_on_tick : Debug F → Controller F → Debug F × Controller F
  debug_on_tick s c =
      let now = c.current_time in
      let c1 =
        if is_empty c.diagnostic_events then c else emit_flight_effect (flight_events now) c in
      let status_due =
        not s.status_publish_initialized
        || le status_publish_interval (sub now s.last_status_publish_time) in
      let c2 =
        if status_due
        then emit_flight_effect (flight_tracking_error now) (
            emit_flight_effect (flight_sensor_stats now)
              (emit_flight_effect (flight_status now) c1))
        else c1 in
      let debug_due =
        not s.debug_print_initialized
        || le debug_print_interval (sub now s.last_debug_print_time) in
      (
        record {
          last_status_publish_time = if status_due then now else s.last_status_publish_time;
          last_debug_print_time = if debug_due then now else s.last_debug_print_time;
          status_publish_initialized = true;
          debug_print_initialized = true;
        },
        if debug_due then emit_flight_effect (flight_sensor_debug now) c2 else c2,
      )
