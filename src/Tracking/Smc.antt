-- ===== src/Tracking/Smc.antt =====
-- Custom1State::handleSmcMode of src/uav/state_machine/custom1_state.cpp.
use xgc2_multirotor_controll.Prelude.{
  true, false, not, Option, none, some, ◌&&◌, if◌then◌else◌, ◌>>=◌,
}
use xgc2_multirotor_controll.Double.{Double}
use xgc2_multirotor_controll.Time.{Stamp, stamp_of_sec}
use xgc2_multirotor_controll.Types.{smc, Setpoint, zero_vector}
use xgc2_multirotor_controll.Lifter.{lift_for_backend, promote_trajectory_sample}
use xgc2_multirotor_controll.Controller.{Controller}
use xgc2_multirotor_controll.Tracking.{
  TrackingReference, TrackingStrategyInput, TrackingStrategyResult, Strategy, Custom1State, Tracked,
  count_failure, should_publish, publish_local, publish_hover_if_due, hold_tracking_position,
  wait_for_trajectory, may_take_setpoint, should_run_synchronous,
}

module _ {F : Type 0} ⦃d : Double F⦄ where
  open d use {lit}

  -- the reference that a lifted setpoint gives the strategy
  unfoldable pub smc_reference : Setpoint F → TrackingReference F
  smc_reference lifted = record {
    position = lifted.position;
    velocity = lifted.velocity;
    acceleration = lifted.acceleration;
    jerk = zero_vector;
    snap = zero_vector;
    yaw = lit 0 0;
    yaw_rate = lit 0 0;
    yaw_accel = lit 0 0;
    flags = 0;
  }

  unfoldable pub smc_input : Stamp → Setpoint F → Controller F → TrackingStrategyInput F
  unfolding smc_reference
  smc_input now lifted c = record {
    sensor = c.sensor;
    reference = smc_reference lifted;
    now = now;
    stamp = c.mpc_trajectory_buffer.active.planning_time;
    type_mask = lifted.type_mask;
  }

module _ {F A B L : Type 0} ⦃d : Double F⦄ where
  -- no effective reference
  unfoldable pub smc_wait : F → Custom1State F A B L → Controller F → Tracked F A B L
  smc_wait current_time s c =
      if s.tracking_armed && not s.tracking_position_held
      then hold_tracking_position current_time (wait_for_trajectory c s) c
      else (if s.tracking_position_held
          then (if should_publish current_time s c
              then publish_local s.tracking_frozen_hover current_time s c
              else (s, c))
          else publish_hover_if_due current_time
              (if not s.tracking_armed then wait_for_trajectory c s else s) c)

  -- what an update of the strategy leads to: `none` is a failure or another kind of output
  unfoldable pub smc_finish :
      F → Option (TrackingStrategyResult F) → Custom1State F A B L → Controller F → Tracked F A B L
  smc_finish current_time none s c =
      hold_tracking_position current_time (wait_for_trajectory c (count_failure s)) c
  smc_finish current_time (some result) s c =
      if not result.is_local
      then hold_tracking_position current_time (wait_for_trajectory c (count_failure s)) c
      else publish_local result.local_setpoint current_time
          (record s {
            consecutive_failures = 0;
            last_success_time = current_time;
            tracking_position_held = false;
          })
          c

  module _ (strategy : Strategy F B) where
    unfoldable pub smc_enter : Stamp → Custom1State F A B L → Controller F → Custom1State F A B L
    smc_enter now s c =
        let entered = strategy.enter c.sensor now s.smc_strategy in
        if s.sync_strategy_entered
        then s
        else record s { smc_strategy = entered.0; sync_strategy_entered = entered.1 }

    -- an effective reference, which the vehicle may take
    unfoldable pub smc_follow :
        F → Stamp → Setpoint F → Custom1State F A B L → Controller F → Tracked F A B L
    unfolding smc_input
    smc_follow current_time now lifted s c =
        let armed = record s { tracking_armed = true } in
        if not armed.sync_strategy_entered
        then publish_hover_if_due current_time armed c
        else (if not (should_run_synchronous current_time c.config.control_period armed)
            then (armed, c)
            else (let updated =
                  strategy.update (smc_input now lifted c)
                    (strategy.configure c.config armed.smc_strategy) in
                smc_finish current_time updated.1 (record armed { smc_strategy = updated.0 }) c))

    -- after the lift
    unfoldable pub smc_lifted :
        F → Stamp → Option (Setpoint F) → Custom1State F A B L → Controller F → Tracked F A B L
    smc_lifted current_time now none s c = smc_wait current_time s c
    smc_lifted current_time now (some lifted) s c =
        if may_take_setpoint c.mpc_trajectory_buffer.active s c
        then smc_follow current_time now lifted s c
        else smc_wait current_time s c

    unfoldable pub handle_smc_mode :
        F → Custom1State F A B L → Controller F → Option (Tracked F A B L)
    handle_smc_mode current_time s c = do
      now ← stamp_of_sec current_time
      let promoted =
          promote_trajectory_sample c.mpc_trajectory_buffer now smc c.config.px4_local_lift
      lifted ←
          lift_for_backend promoted.0.active now c.config.planning_period c.config.local_type_mask
            false smc c.config.px4_local_lift
      some (
          smc_lifted current_time now lifted (smc_enter now s c)
            (record c { mpc_trajectory_buffer = promoted.0 }))
