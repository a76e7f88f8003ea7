-- ===== src/Tracking/Wake.antt =====
-- Custom1State::nextWake of src/uav/state_machine/custom1_state.cpp. The deadlines of a backend are a
-- list, in the order of the source's calls of `include`.
use xgc2_multirotor_controll.Prelude.{
  Bool, true, false, not, Option, none, some, List, [], ◌∷◌, ◌++◌, has_value, ltb, ◌&&◌, ◌||◌,
  if◌then◌else◌, ◌>>=◌,
}
use xgc2_multirotor_controll.Prelude.Int.{pos, ◌+ℤ◌, leb_ℤ}
use xgc2_multirotor_controll.Double.{Double, fmax}
use xgc2_multirotor_controll.Clock.{controller_due_at, controller_strict_due_at, timer_due_at}
use xgc2_multirotor_controll.Time.{
  Stamp, stamp_ns, stamp_lt, stamp_sec, stamp_of_sec, stamp_add, duration_of_ns,
}
use xgc2_multirotor_controll.Types.{TrackingBackend, px4_local, nmpc, dfbc, smc, pva_smc}
use xgc2_multirotor_controll.Lifter.{
  uses_stage_effective_time, segment_period_ns, stage_window_open, smc_world_pva_available,
}
use xgc2_multirotor_controll.Cache.{FlagBits, valid, next_time_remaining_at_most}
use xgc2_multirotor_controll.Controller.{Controller}
use xgc2_multirotor_controll.Flight.Wake.{earliest_from}
use xgc2_multirotor_controll.Tracking.{Custom1State, Strategy, may_take_setpoint}
use xgc2_multirotor_controll.Tracking.Nmpc.{horizon_span}
use xgc2_multirotor_controll.Tracking.Dfbc.{is_streaming}

abbrev pub is_pva : TrackingBackend → Bool
is_pva pva_smc = true
is_pva _ = false

module _ {F : Type 0} ⦃d : Double F⦄ where
  open d use {lit, add, lt, le, next_up}

  -- Time::toSecAtOrAfter
  unfoldable pub to_sec_at_or_after : Stamp → Option F
  to_sec_at_or_after t =
      let value = stamp_sec t in
      stamp_of_sec value >>= λ back.
      some (if ltb (stamp_ns back) (stamp_ns t) then next_up (add value (lit 1 9)) else value)

  -- a repetition that has not started is due now, or one period from a clock that stands at zero
  unfoldable pub repeat_due : F → F → F → F
  repeat_due now_sec last period =
      if le last (lit 0 0)
      then (if lt (lit 0 0) now_sec then now_sec else controller_due_at now_sec period)
      else controller_due_at last period

  -- the pending sample's time, and the end of the active sample's stage
  unfoldable pub pending_wake : Controller F → Option (Option F)
  unfolding to_sec_at_or_after
  pending_wake c =
      let backend = c.config.tracking_backend in
      let pending = c.mpc_trajectory_buffer.pending in
      if pending.is_valid
        && uses_stage_effective_time backend c.config.px4_local_lift
        && (not (is_pva backend) || has_value c.sensor.paired_local_pv)
      then (to_sec_at_or_after pending.planning_time >>= λ t. some (some t))
      else some none

  unfoldable pub stage_end_wake : Stamp → Controller F → Option (Option F)
  unfolding to_sec_at_or_after
  stage_end_wake now c =
      let backend = c.config.tracking_backend in
      let point = c.mpc_trajectory_buffer.active in
      let period_ns = segment_period_ns c.config.planning_period in
      if point.is_valid
        && uses_stage_effective_time backend c.config.px4_local_lift
        && not (is_pva backend)
        && leb_ℤ (pos 0) period_ns
      then (do
        period ← duration_of_ns (period_ns +ℤ pos 1)
        expires ← stamp_add point.planning_time period
        if stamp_lt now expires
            then (to_sec_at_or_after expires >>= λ t. some (some t))
            else some none)
      else some none

module _ {F A B L : Type 0} ⦃d : Double F⦄ ⦃b : FlagBits⦄ where
  open d use {lit, add, lt, le}

  abbrev publish_due : Custom1State F A B L → Controller F → Option F
  publish_due s c = some (controller_due_at s.last_publish_time c.custom1_publish_period)

  unfoldable pub pva_wakes : Custom1State F A B L → Controller F → List (Option F)
  pva_wakes s c =
      if c.mpc_trajectory_buffer.active.is_valid && has_value c.sensor.paired_local_pv
      then publish_due s c ∷ []
      else []

  unfoldable pub local_wakes : Custom1State F A B L → Controller F → List (Option F)
  local_wakes s c =
      if may_take_setpoint c.mpc_trajectory_buffer.active s c
      then publish_due s c ∷ []
      else publish_due s c ∷ timer_due_at s.trajectory_wait_log_timer (lit 1 0) ∷ []

  -- a sample in force with a world PVA, which the vehicle may take
  unfoldable pub staged_ready : Stamp → Custom1State F A B L → Controller F → Option Bool
  staged_ready now s c =
      let point = c.mpc_trajectory_buffer.active in
      stage_window_open point now c.config.planning_period >>= λ is_open. some (
        is_open
        && smc_world_pva_available point.type_mask point.coordinate_frame
        && may_take_setpoint point s c)

  unfoldable pub smc_wakes : Stamp → Custom1State F A B L → Controller F → Option (List (Option F))
  unfolding staged_ready
  smc_wakes now s c = staged_ready now s c >>= λ is_ready.
      let due =
        if is_ready && s.sync_strategy_entered
        then some
            (repeat_due c.current_time s.last_publish_time (fmax (lit 1 3) c.config.control_period))
        else publish_due s c in
      let waiting = not is_ready && not s.tracking_armed && not s.tracking_position_held in
      some (
        if waiting then due ∷ timer_due_at s.trajectory_wait_log_timer (lit 1 0) ∷ [] else due ∷ [])

  unfoldable pub dfbc_wakes :
      F → Stamp → Custom1State F A B L → Controller F → Option (List (Option F))
  unfolding staged_ready
  dfbc_wakes period now s c =
      let sync = some (repeat_due c.current_time s.last_publish_time (fmax (lit 1 3) period)) in
      let cache = c.active_trajectory_cache in
      if is_streaming c.config.reference_source
      then (staged_ready now s c >>= λ is_ready.
          some ((if is_ready then sync else publish_due s c) ∷ []))
      else (if valid cache
          then (next_time_remaining_at_most cache now (add (fmax (lit 1 3) period) (lit 1 6))
              >>= λ due. some (sync ∷ due ∷ []))
          else some (publish_due s c ∷ timer_due_at s.nmpc_wait_log_timer (lit 1 0) ∷ []))

  -- the output of the solver grows stale, or is
  unfoldable pub stale_wakes : Custom1State F A B L → Controller F → List (Option F)
  stale_wakes s c =
      let stale = controller_strict_due_at s.last_success_time c.config.result_timeout in
      if lt (lit 0 0) s.last_success_time && lt (lit 0 0) c.config.result_timeout
      then (if lt c.current_time stale
          then some stale ∷ []
          else publish_due s c ∷ timer_due_at c.nmpc_stale_output_log_timer (lit 1 0) ∷ [])
      else []

  unfoldable pub nmpc_wakes : Stamp → Custom1State F A B L → Controller F → Option (List (Option F))
  unfolding stale_wakes
  nmpc_wakes now s c =
      let cache = c.active_trajectory_cache in
      let deadline =
        if s.request_in_flight
        then some (controller_strict_due_at s.request_deadline (lit 0 0))
        else none in
      let request =
        if s.request_in_flight
        then none
        else some (repeat_due c.current_time s.last_request_time c.config.control_period) in
      if not (valid cache)
      then some (deadline ∷ publish_due s c ∷ timer_due_at s.nmpc_wait_log_timer (lit 1 0) ∷ [])
      else (next_time_remaining_at_most cache now (add (horizon_span c.config) (lit 1 6)) >>= λ due.
          some (deadline ∷ due ∷ stale_wakes s c ++ (request ∷ [])))

  module _ (strategy : Strategy F A) where
    unfoldable pub backend_wakes :
        TrackingBackend → Stamp → Custom1State F A B L → Controller F → Option (List (Option F))
    backend_wakes pva_smc now s c = some (pva_wakes s c)
    backend_wakes px4_local now s c = some (local_wakes s c)
    backend_wakes smc now s c = smc_wakes now s c
    backend_wakes dfbc now s c = dfbc_wakes (strategy.period s.dfbc_strategy) now s c
    backend_wakes nmpc now s c = nmpc_wakes now s c

    -- what nextWake includes, in its order
    unfoldable pub custom1_wakes : Custom1State F A B L → Controller F → Option (List (Option F))
    unfolding backend_wakes
    custom1_wakes s c = do
      now ← stamp_of_sec c.current_time
      pending ← pending_wake c
      stage_end ← stage_end_wake now c
      rest ← backend_wakes c.config.tracking_backend now s c
      some (pending ∷ stage_end ∷ rest)

    unfoldable pub custom1_next_wake : Custom1State F A B L → Controller F → Option (Option F)
    unfolding custom1_wakes
    custom1_next_wake s c = custom1_wakes s c >>= λ due. some (earliest_from none due)
