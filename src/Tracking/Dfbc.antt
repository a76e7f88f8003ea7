-- ===== src/Tracking/Dfbc.antt =====
-- Custom1State::handleSynchronousAttitudeRateMode of src/uav/state_machine/custom1_state.cpp.
-- quaternionToYaw of the common types is written over std::atan2.
use xgc2_multirotor_controll.Prelude.{
  Bool, true, false, not, Option, none, some, ◌||◌, if◌then◌else◌, ◌>>=◌,
}
use xgc2_multirotor_controll.Double.{Double, fmax}
use xgc2_multirotor_controll.Time.{Stamp, stamp_of_sec}
use xgc2_multirotor_controll.Types.{
  dfbc, DfbcReferenceSource, planner_setpoint, trajectory_cache, Setpoint, zero_vector,
}
use xgc2_multirotor_controll.Lifter.{
  lift_for_backend, promote_trajectory_sample, position_target_ignored, ignore_yaw_rate,
}
use xgc2_multirotor_controll.Cache.{UavReferencePoint, FlagBits, valid, sample}
use xgc2_multirotor_controll.Controller.{Controller}
use xgc2_multirotor_controll.Tracking.{
  TrackingReference, TrackingStrategyResult, Strategy, Custom1State, Tracked, count_failure,
  should_publish, publish_attitude, publish_current_hover, publish_hover_if_due,
  publish_backup_setpoint, hold_tracking_position, post_reference_finished, wait_for_trajectory,
  wait_for_nmpc, may_take_setpoint, should_run_synchronous,
}
use xgc2_multirotor_controll.Tracking.Nmpc.{reference_ends_within}

abbrev pub is_streaming : DfbcReferenceSource → Bool
is_streaming planner_setpoint = true
is_streaming trajectory_cache = false

module _ {F : Type 0} ⦃d : Double F⦄ where
  open d use {lit, add, sub, mul}

  unfoldable pub quaternion_to_yaw : F → F → F → F → F
  quaternion_to_yaw qx qy qz qw =
      d.atan2 (mul (lit 2 0) (add (mul qw qz) (mul qx qy)))
        (sub (lit 1 0) (mul (lit 2 0) (add (mul qy qy) (mul qz qz))))

  unfoldable pub streamed_reference : Setpoint F → TrackingReference F
  unfolding quaternion_to_yaw
  streamed_reference point = record {
    position = point.position;
    velocity = point.velocity;
    acceleration = point.acceleration;
    jerk = zero_vector;
    snap = zero_vector;
    yaw = quaternion_to_yaw point.qx point.qy point.qz point.qw;
    yaw_rate =
        if position_target_ignored point.type_mask ignore_yaw_rate then lit 0 0 else point.yaw_rate;
    yaw_accel = lit 0 0;
    flags = 0;
  }

  unfoldable pub sampled_reference : UavReferencePoint F → TrackingReference F
  sampled_reference point = record {
    position = point.flat.position;
    velocity = point.flat.velocity;
    acceleration = point.flat.acceleration;
    jerk = point.flat.jerk;
    snap = point.flat.snap;
    yaw = point.flat.yaw;
    yaw_rate = point.flat.yaw_rate;
    yaw_accel = point.flat.yaw_accel;
    flags = point.flat.flags;
  }

module _ {F A B L : Type 0} ⦃d : Double F⦄ ⦃b : FlagBits⦄ (strategy : Strategy F A) where
  open d use {lit}

  -- configure, and enter until it succeeds
  unfoldable pub dfbc_enter : Stamp → Custom1State F A B L → Controller F → Custom1State F A B L
  dfbc_enter now s c =
      let configured = strategy.configure c.config s.dfbc_strategy in
      let entered = strategy.enter c.sensor now configured in
      if s.sync_strategy_entered
      then record s { dfbc_strategy = configured }
      else record s { dfbc_strategy = entered.0; sync_strategy_entered = entered.1 }

  -- what an update of the strategy leads to
  unfoldable pub dfbc_finish :
      F
      → Bool
      → Option (TrackingStrategyResult F)
      → Custom1State F A B L
      → Controller F
      → Option (Tracked F A B L)
  dfbc_finish current_time streaming none s c =
      let failed = wait_for_trajectory c (count_failure s) in
      if streaming
      then some (hold_tracking_position current_time failed c)
      else publish_backup_setpoint current_time failed c
  dfbc_finish current_time streaming (some result) s c = some (
      publish_attitude current_time
        (record s {
          consecutive_failures = 0;
          last_success_time = current_time;
          tracking_position_held = if streaming then false else s.tracking_position_held;
        })
        (record c { attitude_rate_target = result.attitude_rate_target }))

  -- the strategy is due, with a reference
  unfoldable pub dfbc_update :
      F
      → Stamp
      → Bool
      → TrackingReference F
      → Custom1State F A B L
      → Controller F
      → Option (Tracked F A B L)
  dfbc_update current_time now streaming reference s c =
      let updated =
        strategy.update
          (record {
            sensor = c.sensor;
            reference = reference;
            now = now;
            stamp = record { sec = 0; nsec = 0 };
            type_mask = 0;
          })
          s.dfbc_strategy in
      if not s.sync_strategy_entered
      then some (publish_current_hover current_time s c)
      else dfbc_finish current_time streaming updated.1 (record s { dfbc_strategy = updated.0 }) c

  -- after the lift of a streamed reference: without a setpoint that the vehicle may take, it is held
  -- once it has been tracked
  unfoldable pub dfbc_waiting : F → Custom1State F A B L → Controller F → Tracked F A B L
  dfbc_waiting current_time s c =
      let held = s.tracking_armed || s.tracking_position_held in
      if should_publish current_time s c
      then (if held
          then hold_tracking_position current_time s c
          else publish_current_hover current_time s c)
      else (s, c)

  unfoldable pub dfbc_stream :
      F
      → Stamp
      → Option (Setpoint F)
      → Custom1State F A B L
      → Controller F
      → Option (Tracked F A B L)
  dfbc_stream current_time now none s c = some (dfbc_waiting current_time s c)
  dfbc_stream current_time now (some point) s c =
      let armed = record s { tracking_armed = true } in
      if not (may_take_setpoint c.mpc_trajectory_buffer.active s c)
      then some (dfbc_waiting current_time s c)
      else (if not (should_run_synchronous current_time (strategy.period s.dfbc_strategy) armed)
          then some (armed, c)
          else dfbc_update current_time now true (streamed_reference point) armed c)

  -- finishesBeforeNextSynchronousUpdate
  unfoldable pub finishes_before_next_update : F → Custom1State F A B L → Controller F → Option Bool
  finishes_before_next_update current_time s c =
      reference_ends_within (d.add (fmax (lit 1 3) (strategy.period s.dfbc_strategy)) (lit 1 6))
        current_time c.active_trajectory_cache

  -- an update that is due, with what the cache gives for it
  unfoldable pub dfbc_sampled_at :
      F
      → Stamp
      → Option (UavReferencePoint F)
      → Custom1State F A B L
      → Controller F
      → Option (Tracked F A B L)
  dfbc_sampled_at current_time now none s c = some (publish_current_hover current_time s c)
  dfbc_sampled_at current_time now (some point) s c =
      dfbc_update current_time now false (sampled_reference point) s c

  unfoldable pub dfbc_cached :
      F → Stamp → Custom1State F A B L → Controller F → Option (Tracked F A B L)
  dfbc_cached current_time now s c =
      let armed = record s { tracking_armed = true } in
      if not (valid c.active_trajectory_cache)
      then some (
          publish_hover_if_due current_time (wait_for_nmpc c (record s { tracking_armed = false }))
            c)
      else (finishes_before_next_update current_time armed c >>= λ finishing.
          if finishing
          then some (post_reference_finished current_time armed c)
          else (if not (should_run_synchronous current_time (strategy.period s.dfbc_strategy) armed)
              then some (armed, c)
              else (sample c.active_trajectory_cache now >>= λ point.
                  dfbc_sampled_at current_time now point armed c)))

  unfoldable pub dfbc_promoted :
      F → Stamp → Custom1State F A B L → Controller F → Option (Tracked F A B L)
  dfbc_promoted current_time now s c = do
    let promoted =
        promote_trajectory_sample c.mpc_trajectory_buffer now dfbc c.config.px4_local_lift
    lifted ←
        lift_for_backend promoted.0.active now c.config.planning_period c.config.local_type_mask
          c.config.enable_yaw_control dfbc c.config.px4_local_lift
    dfbc_stream current_time now lifted s (record c { mpc_trajectory_buffer = promoted.0 })

  -- handleSynchronousAttitudeRateMode
  unfoldable pub handle_synchronous_mode :
      F → Custom1State F A B L → Controller F → Option (Tracked F A B L)
  handle_synchronous_mode current_time s c = do
    now ← stamp_of_sec current_time
    let entered = dfbc_enter now s c
    if is_streaming c.config.reference_source
        then dfbc_promoted current_time now entered c
        else dfbc_cached current_time now entered c
