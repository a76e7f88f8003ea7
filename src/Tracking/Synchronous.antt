-- ===== src/Tracking/Synchronous.antt =====
-- src/uav/state_machine/custom1_state.cpp: handleSynchronousAttitudeRateMode sends no request to the
-- solver, and how often it signals reference_finished.
use xgc2_multirotor_controll.Prelude.{
  Bool, true, false, not, if◌then◌else◌, Option, none, some, arith, Gives, bind-Gives, some-Gives,
  if-Gives,
}
use xgc2_multirotor_controll.Double.{Double}
use xgc2_multirotor_controll.Time.{Stamp, stamp_of_sec}
use xgc2_multirotor_controll.Types.{Setpoint, dfbc}
use xgc2_multirotor_controll.Lifter.{promote_trajectory_sample}
use xgc2_multirotor_controll.Cache.{FlagBits, UavReferencePoint, valid, sample}
use xgc2_multirotor_controll.Controller.{Controller}
use xgc2_multirotor_controll.Tracking.{
  TrackingReference, TrackingStrategyInput, TrackingStrategyResult, Strategy, Custom1State,
  should_run_synchronous, wait_for_nmpc, hold_tracking_position, publish_attitude,
  publish_hover_if_due, count_failure, wait_for_trajectory,
}
use xgc2_multirotor_controll.Tracking.Dfbc.{
  dfbc_enter, dfbc_finish, dfbc_update, dfbc_stream, dfbc_sampled_at, dfbc_waiting, dfbc_cached,
  dfbc_promoted, handle_synchronous_mode, finishes_before_next_update, sampled_reference,
  streamed_reference,
}
use xgc2_multirotor_controll.Tracking.Emitted.{
  Quiet, Quiet-trans, Gives-after, publish_attitude-Quiet, publish_current_hover-Quiet,
  publish_hover_if_due-Quiet, hold_tracking_position-Quiet, post_reference_finished-Quiet,
  publish_backup_setpoint-Quiet,
}

module _ {F A B L : Type 0} ⦃d : Double F⦄ ⦃b : FlagBits⦄ (strategy : Strategy F A) where
  dfbc_finish-Quiet :
      (t : F) (streaming : Bool) (r : Option (TrackingStrategyResult F)) (s : Custom1State F A B L)
      (c : Controller F)
      → Gives (Quiet s c) (dfbc_finish strategy t streaming r s c)
  unfolding dfbc_finish wait_for_trajectory count_failure
  dfbc_finish-Quiet t streaming none s c =
      let failed = wait_for_trajectory c (count_failure s) in
      if-Gives (Quiet s c) streaming _ _
        (some-Gives (Quiet s c) (hold_tracking_position t failed c)
          (ground (arith, hold_tracking_position-Quiet t failed c)))
        (Gives-after _ (ground arith) (publish_backup_setpoint-Quiet t failed c))
  dfbc_finish-Quiet t streaming (some result) s c =
      let done = record s {
        consecutive_failures = 0;
        last_success_time = t;
        tracking_position_held = if streaming then false else s.tracking_position_held;
      } in
      let set = record c { attitude_rate_target = result.attitude_rate_target } in
      some-Gives (Quiet s c) (publish_attitude t done set)
        (ground (arith, publish_attitude-Quiet t done set))

  dfbc_update-Quiet :
      (t : F) (now : Stamp) (streaming : Bool) (r : TrackingReference F) (s : Custom1State F A B L)
      (c : Controller F)
      → Gives (Quiet s c) (dfbc_update strategy t now streaming r s c)
  unfolding dfbc_update
  dfbc_update-Quiet t now streaming r s c =
      let input : TrackingStrategyInput F = record {
        sensor = c.sensor;
        reference = r;
        now = now;
        stamp = record { sec = 0; nsec = 0 };
        type_mask = 0;
      } in
      let updated = strategy.update input s.dfbc_strategy in
      if-Gives (Quiet s c) _ _ _ (some-Gives (Quiet s c) _ (publish_current_hover-Quiet t s c)) (
        Gives-after _ (ground arith)
          (dfbc_finish-Quiet t streaming updated.1 (record s { dfbc_strategy = updated.0 }) c))

  dfbc_waiting-Quiet :
      (t : F) (s : Custom1State F A B L) (c : Controller F)
      → Quiet s c (dfbc_waiting strategy t s c)
  unfolding dfbc_waiting
  dfbc_waiting-Quiet t s c =
      ground (arith, hold_tracking_position-Quiet t s c, publish_current_hover-Quiet t s c)

  dfbc_stream-Quiet :
      (t : F) (now : Stamp) (o : Option (Setpoint F)) (s : Custom1State F A B L) (c : Controller F)
      → Gives (Quiet s c) (dfbc_stream strategy t now o s c)
  unfolding dfbc_stream
  dfbc_stream-Quiet t now none s c = some-Gives (Quiet s c) _ (dfbc_waiting-Quiet t s c)
  dfbc_stream-Quiet t now (some point) s c =
      let armed = record s { tracking_armed = true } in
      let same : Quiet s c (armed, c) = ground arith in
      if-Gives (Quiet s c) _ _ _ (some-Gives (Quiet s c) _ (dfbc_waiting-Quiet t s c)) (
        if-Gives (Quiet s c) _ _ _ (some-Gives (Quiet s c) _ same)
          (Gives-after _ same (dfbc_update-Quiet t now true (streamed_reference point) armed c)))

  dfbc_sampled_at-Quiet :
      (t : F) (now : Stamp) (o : Option (UavReferencePoint F)) (s : Custom1State F A B L)
      (c : Controller F)
      → Gives (Quiet s c) (dfbc_sampled_at strategy t now o s c)
  unfolding dfbc_sampled_at
  dfbc_sampled_at-Quiet t now none s c =
      some-Gives (Quiet s c) _ (publish_current_hover-Quiet t s c)
  dfbc_sampled_at-Quiet t now (some p) s c = dfbc_update-Quiet t now false (sampled_reference p) s c

  dfbc_cached-Quiet :
      (t : F) (now : Stamp) (s : Custom1State F A B L) (c : Controller F)
      → Gives (Quiet s c) (dfbc_cached strategy t now s c)
  unfolding dfbc_cached wait_for_nmpc
  dfbc_cached-Quiet t now s c =
      let armed = record s { tracking_armed = true } in
      let waiting = wait_for_nmpc c (record s { tracking_armed = false }) in
      let same : Quiet s c (armed, c) = ground arith in
      let due = should_run_synchronous t (strategy.period s.dfbc_strategy) armed in
      if-Gives (Quiet s c) (not (valid c.active_trajectory_cache)) _ _
        (some-Gives (Quiet s c) (publish_hover_if_due t waiting c)
          (ground (arith, publish_hover_if_due-Quiet t waiting c)))
        (bind-Gives (Quiet s c) (finishes_before_next_update strategy t armed c) _ (λ finishing.
          if-Gives (Quiet s c) finishing _ _
            (some-Gives (Quiet s c) _ (Quiet-trans same (post_reference_finished-Quiet t armed c)))
            (if-Gives (Quiet s c) (not due) _ _ (some-Gives (Quiet s c) _ same) (
              bind-Gives (Quiet s c) (sample c.active_trajectory_cache now) _
                (λ o. Gives-after _ same (dfbc_sampled_at-Quiet t now o armed c))))))

  dfbc_promoted-Quiet :
      (t : F) (now : Stamp) (s : Custom1State F A B L) (c : Controller F)
      → Gives (Quiet s c) (dfbc_promoted strategy t now s c)
  unfolding dfbc_promoted
  dfbc_promoted-Quiet t now s c =
      let promoted =
        promote_trajectory_sample c.mpc_trajectory_buffer now dfbc c.config.px4_local_lift in
      let moved = record c { mpc_trajectory_buffer = promoted.0 } in
      bind-Gives (Quiet s c) _ _
        (λ lifted. Gives-after _ (ground arith) (dfbc_stream-Quiet t now lifted s moved))

  pub synchronous-Quiet :
      (t : F) (s : Custom1State F A B L) (c : Controller F)
      → Gives (Quiet s c) (handle_synchronous_mode strategy t s c)
  unfolding handle_synchronous_mode dfbc_enter
  synchronous-Quiet t s c = bind-Gives (Quiet s c) (stamp_of_sec t) _ (λ now.
      let entered = dfbc_enter strategy now s c in
      let same : Quiet s c (entered, c) = ground arith in
      Gives-after _ same (
        if-Gives (Quiet entered c) _ _ _ (dfbc_promoted-Quiet t now entered c)
          (dfbc_cached-Quiet t now entered c)))
