-- ===== src/Tracking/Modes.antt =====
-- src/uav/state_machine/custom1_state.cpp: the modes that send no request to the solver, and how often
-- they signal reference_finished.
use xgc2_multirotor_controll.Prelude.{
  Gives, bind-Gives, some-Gives, if-Gives, Option, none, some, Bool, true, false, arith,
}
use xgc2_multirotor_controll.Double.{Double}
use xgc2_multirotor_controll.Time.{Stamp, stamp_of_sec}
use xgc2_multirotor_controll.Types.{Setpoint, LocalPv, smc, px4_local, pva_smc}
use xgc2_multirotor_controll.Lifter.{promote_trajectory_sample}
use xgc2_multirotor_controll.Controller.{Controller}
use xgc2_multirotor_controll.Tracking.{
  TrackingStrategyResult, Strategy, Custom1State, count_failure, wait_for_trajectory,
}
use xgc2_multirotor_controll.Tracking.Local.{
  Sign, pva_smc_publish, handle_pva_smc_mode, local_publish, handle_px4_local_pass_through,
}
use xgc2_multirotor_controll.Tracking.Smc.{
  smc_wait, smc_finish, smc_enter, smc_follow, smc_lifted, handle_smc_mode, smc_input,
}
use xgc2_multirotor_controll.Tracking.Emitted.{
  Quiet, Quiet-refl, Gives-after, publish_local-Quiet, publish_hover_if_due-Quiet,
  hold_tracking_position-Quiet,
}

module _ {F A B L : Type 0} ⦃d : Double F⦄ where
  local_publish-Quiet :
      (t : F) (lifted : Option (Setpoint F)) (s : Custom1State F A B L) (c : Controller F)
      → Quiet s c (local_publish t lifted s c)
  unfolding local_publish wait_for_trajectory
  local_publish-Quiet t none s c = ground (
    arith,
    publish_hover_if_due-Quiet t s c,
    publish_hover_if_due-Quiet t (wait_for_trajectory c (record s { tracking_armed = false })) c,
  )
  local_publish-Quiet t (some p) s c = ground (
    arith,
    publish_local-Quiet p t (record s { tracking_armed = true }) c,
    publish_hover_if_due-Quiet t (wait_for_trajectory c (record s { tracking_armed = false })) c,
  )

  pub local-Quiet :
      (t : F) (s : Custom1State F A B L) (c : Controller F)
      → Gives (Quiet s c) (handle_px4_local_pass_through t s c)
  unfolding handle_px4_local_pass_through
  local-Quiet t s c = bind-Gives (Quiet s c) (stamp_of_sec t) _ (λ now.
      let promoted =
        promote_trajectory_sample c.mpc_trajectory_buffer now px4_local c.config.px4_local_lift in
      let moved = record c { mpc_trajectory_buffer = promoted.0 } in
      bind-Gives (Quiet s c) _ _ (λ lifted.
        some-Gives (Quiet s c) (local_publish t lifted s moved)
          (ground (arith, local_publish-Quiet t lifted s moved))))

  pva_publish-Quiet :
      ⦃g : Sign F⦄
      → (t : F) (now : Stamp) (switched : Bool) (paired : Option (LocalPv F))
        (s : Custom1State F A B L) (c : Controller F)
      → Gives (Quiet s c) (pva_smc_publish t now switched paired s c)
  unfolding pva_smc_publish
  pva_publish-Quiet t now switched none s c = some-Gives (Quiet s c) (s, c) (Quiet-refl s c)
  pva_publish-Quiet t now switched (some paired) s c =
      if-Gives (Quiet s c) _ _ _ (some-Gives (Quiet s c) (s, c) (Quiet-refl s c)) (
        bind-Gives (Quiet s c) _ _
          (λ lifted. some-Gives (Quiet s c) _ (publish_local-Quiet _ t s c)))

  pub pva-Quiet :
      ⦃g : Sign F⦄
      → (t : F) (s : Custom1State F A B L) (c : Controller F)
      → Gives (Quiet s c) (handle_pva_smc_mode t s c)
  unfolding handle_pva_smc_mode
  pva-Quiet t s c = bind-Gives (Quiet s c) (stamp_of_sec t) _ (λ now.
      let promoted =
        promote_trajectory_sample c.mpc_trajectory_buffer now pva_smc c.config.px4_local_lift in
      let moved = record c { mpc_trajectory_buffer = promoted.0 } in
      Gives-after _ (ground arith)
        (pva_publish-Quiet t now promoted.1 c.sensor.paired_local_pv s moved))

  smc_wait-Quiet :
      (t : F) (s : Custom1State F A B L) (c : Controller F) → Quiet s c (smc_wait t s c)
  unfolding smc_wait wait_for_trajectory
  smc_wait-Quiet t s c = ground (
    arith,
    hold_tracking_position-Quiet t (wait_for_trajectory c s) c,
    publish_local-Quiet s.tracking_frozen_hover t s c,
    publish_hover_if_due-Quiet t s c,
    publish_hover_if_due-Quiet t (wait_for_trajectory c s) c,
  )

  smc_finish-Quiet :
      (t : F) (r : Option (TrackingStrategyResult F)) (s : Custom1State F A B L) (c : Controller F)
      → Quiet s c (smc_finish t r s c)
  unfolding smc_finish wait_for_trajectory count_failure
  smc_finish-Quiet t none s c =
      ground (arith, hold_tracking_position-Quiet t (wait_for_trajectory c (count_failure s)) c)
  smc_finish-Quiet t (some r) s c = ground (
    arith,
    hold_tracking_position-Quiet t (wait_for_trajectory c (count_failure s)) c,
    publish_local-Quiet r.local_setpoint t
        (record s {
          consecutive_failures = 0;
          last_success_time = t;
          tracking_position_held = false;
        })
        c,
  )

  module _ (strategy : Strategy F B) where
    smc_follow-Quiet :
        (t : F) (now : Stamp) (p : Setpoint F) (s : Custom1State F A B L) (c : Controller F)
        → Quiet s c (smc_follow strategy t now p s c)
    unfolding smc_follow
    smc_follow-Quiet t now p s c =
        let armed = record s { tracking_armed = true } in
        let updated =
          strategy.update (smc_input now p c) (strategy.configure c.config armed.smc_strategy) in
        ground (
          arith,
          publish_hover_if_due-Quiet t armed c,
          smc_finish-Quiet t updated.1 (record armed { smc_strategy = updated.0 }) c,
        )

    smc_lifted-Quiet :
        (t : F) (now : Stamp) (o : Option (Setpoint F)) (s : Custom1State F A B L)
        (c : Controller F)
        → Quiet s c (smc_lifted strategy t now o s c)
    unfolding smc_lifted
    smc_lifted-Quiet t now none s c = smc_wait-Quiet t s c
    smc_lifted-Quiet t now (some p) s c =
        ground (arith, smc_wait-Quiet t s c, smc_follow-Quiet t now p s c)

    pub smc-Quiet :
        (t : F) (s : Custom1State F A B L) (c : Controller F)
        → Gives (Quiet s c) (handle_smc_mode strategy t s c)
    unfolding handle_smc_mode smc_enter
    smc-Quiet t s c = bind-Gives (Quiet s c) (stamp_of_sec t) _ (λ now.
        let promoted =
          promote_trajectory_sample c.mpc_trajectory_buffer now smc c.config.px4_local_lift in
        let moved = record c { mpc_trajectory_buffer = promoted.0 } in
        bind-Gives (Quiet s c) _ _ (λ lifted.
          some-Gives (Quiet s c)
            (smc_lifted strategy t now lifted (smc_enter strategy now s c) moved)
            (ground (arith, smc_lifted-Quiet t now lifted (smc_enter strategy now s c) moved))))
