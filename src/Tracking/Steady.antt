-- ===== src/Tracking/Steady.antt =====
-- What the publishing operations of src/uav/state_machine/custom1_state.cpp leave of the attitude-rate
-- target, the configuration and the reference in force.
use xgc2_multirotor_controll.Prelude.{
  ◌≡◌, refl, ◌∙◌, true, false, Option, none, some, arith, Gives, chain-Gives, map-Gives, bind-Gives,
  some-Gives, if-Gives,
}
use xgc2_multirotor_controll.Double.{Double}
use xgc2_multirotor_controll.Time.{stamp_of_sec}
use xgc2_multirotor_controll.Types.{Setpoint}
use xgc2_multirotor_controll.ResultBuffer.{NmpcSolveResult}
use xgc2_multirotor_controll.Cache.{FlagBits, UavReferencePoint, sample}
use xgc2_multirotor_controll.Controller.{Controller, emit_flight_effect, emit_flight_signal}
use xgc2_multirotor_controll.Tracking.{
  Custom1State, Tracked, publish_local, publish_attitude, publish_current_hover,
  publish_hover_if_due, post_reference_finished, publish_backup_at, publish_backup_setpoint,
}
use xgc2_multirotor_controll.Tracking.Nmpc.{
  finishes_before_next_horizon, use_failure, expire_request, cover_stale_output, stale_warned,
  dispatch_if_due, dispatch_nmpc_request, solve_reference, follow_reference,
}

pub record Steady {F A B L : Type 0} (c : Controller F) (t : Tracked F A B L) : Type 0 where
  pub target_kept : t.1.attitude_rate_target ≡ c.attitude_rate_target
  pub config_kept : t.1.config ≡ c.config
  pub cache_kept : t.1.active_trajectory_cache ≡ c.active_trajectory_cache

module _ {F A B L : Type 0} ⦃d : Double F⦄ where
  abbrev same : {c : Controller F} {s : Custom1State F A B L} → Steady c (s, c)
  same = record { target_kept = refl; config_kept = refl; cache_kept = refl }

  pub Steady-trans :
      {c : Controller F} {t u : Tracked F A B L} → Steady c t → Steady t.1 u → Steady c u
  Steady-trans q r = record {
    target_kept = r.target_kept ∙ q.target_kept;
    config_kept = r.config_kept ∙ q.config_kept;
    cache_kept = r.cache_kept ∙ q.cache_kept;
  }

  local-Steady :
      (p : Setpoint F) (t : F) (s : Custom1State F A B L) (c : Controller F)
      → Steady c (publish_local p t s c)
  unfolding publish_local emit_flight_effect
  local-Steady p t s c = record { target_kept = refl; config_kept = refl; cache_kept = refl }

  attitude-Steady :
      (t : F) (s : Custom1State F A B L) (c : Controller F) → Steady c (publish_attitude t s c)
  unfolding publish_attitude emit_flight_effect
  attitude-Steady t s c = record { target_kept = refl; config_kept = refl; cache_kept = refl }

  hover-Steady :
      (t : F) (s : Custom1State F A B L) (c : Controller F) → Steady c (publish_current_hover t s c)
  unfolding publish_current_hover
  hover-Steady t s c = local-Steady _ t s c

  hover_if_due-Steady :
      (t : F) (s : Custom1State F A B L) (c : Controller F) → Steady c (publish_hover_if_due t s c)
  unfolding publish_hover_if_due
  hover_if_due-Steady t s c = ground (arith, hover-Steady t s c)

  post-Steady :
      (t : F) (s : Custom1State F A B L) (c : Controller F)
      → Steady c (post_reference_finished t s c)
  unfolding post_reference_finished emit_flight_signal
  post-Steady t s c =
      let posted = record s {
        reference_finish_event_posted = true;
        request_in_flight = false;
        tracking_armed = false;
      } in
      ground (arith, hover_if_due-Steady t s c, hover-Steady t posted c)

  pub backup_at-Steady :
      (o : Option (UavReferencePoint F)) (t : F) (s : Custom1State F A B L) (c : Controller F)
      → Steady c (publish_backup_at o t s c)
  unfolding publish_backup_at
  backup_at-Steady none t s c = hover-Steady t s c
  backup_at-Steady (some p) t s c = local-Steady _ t s c

  dispatch-Steady :
      (t : F) (s : Custom1State F A B L) (c : Controller F) → Steady c (dispatch_if_due t s c)
  unfolding dispatch_if_due dispatch_nmpc_request emit_flight_effect
  dispatch-Steady t s c = ground arith

  module _ ⦃b : FlagBits⦄ where
    pub backup-Steady :
        (t : F) (s : Custom1State F A B L) (c : Controller F)
        → Gives (Steady c) (publish_backup_setpoint t s c)
    unfolding publish_backup_setpoint
    backup-Steady t s c = bind-Gives (Steady c) (stamp_of_sec t) _ (λ now.
        bind-Gives (Steady c) (sample c.active_trajectory_cache now) _
          (λ point. some-Gives (Steady c) _ (backup_at-Steady point t s c)))

    pub expire-Steady :
        (t : F) (s : Custom1State F A B L) (c : Controller F)
        → Gives (Steady c) (expire_request t s c)
    unfolding expire_request
    expire-Steady t s c =
        if-Gives (Steady c) _ _ _ (backup-Steady t _ c) (some-Gives (Steady c) _ same)

    pub use_failure-Steady :
        (t : F) (r : NmpcSolveResult F) (s : Custom1State F A B L) (c : Controller F)
        → Gives (Steady c) (use_failure t r s c)
    unfolding use_failure
    use_failure-Steady t r s c =
        if-Gives (Steady c) _ _ _
          (bind-Gives (Steady c) _ _ (λ finishing.
            if-Gives (Steady c) finishing _ _ (some-Gives (Steady c) _ (post-Steady t s c))
              (backup-Steady t _ c)))
          (if-Gives (Steady c) _ _ _ (some-Gives (Steady c) _ (attitude-Steady t _ c))
            (backup-Steady t _ c))

    cover-Steady :
        (t : F) (s : Custom1State F A B L) (c : Controller F)
        → Gives (Steady c) (cover_stale_output t s c)
    unfolding cover_stale_output stale_warned
    cover-Steady t s c =
        let warned = stale_warned c in
        let warning : Steady c (s, warned) = record {
          target_kept = refl;
          config_kept = refl;
          cache_kept = refl;
        } in
        if-Gives (Steady c) _ _ _
          (if-Gives (Steady c) _ _ _
            (map-Gives (Steady warned) (Steady c) _ (λ u. Steady-trans warning)
              (backup-Steady t s warned))
            (some-Gives (Steady c) _ warning))
          (some-Gives (Steady c) _ same)

    solve-Steady :
        (t : F) (s : Custom1State F A B L) (c : Controller F)
        → Gives (Steady c) (solve_reference t s c)
    unfolding solve_reference
    solve-Steady t s c = bind-Gives (Steady c) (finishes_before_next_horizon t c) _ (λ finishing.
        if-Gives (Steady c) finishing _ _ (some-Gives (Steady c) _ (post-Steady t s c)) (
          chain-Gives (Steady c) (Steady c) (cover_stale_output t s c) _ (cover-Steady t s c)
            (λ covered q.
              some-Gives (Steady c) _ (Steady-trans q (dispatch-Steady t covered.0 covered.1)))))

    pub follow-Steady :
        (t : F) (s : Custom1State F A B L) (c : Controller F)
        → Gives (Steady c) (follow_reference t s c)
    unfolding follow_reference
    follow-Steady t s c =
        if-Gives (Steady c) _ _ _ (some-Gives (Steady c) _ (hover_if_due-Steady t _ c))
          (solve-Steady t _ c)
