-- ===== src/Tracking/Nmpc.antt =====
-- Custom1State::handleNmpcEventMode and what it calls, of src/uav/state_machine/custom1_state.cpp: the
-- requests to the solver and the use of its results. The solver itself runs elsewhere and answers
-- through the result buffer.
use xgc2_multirotor_controll.Prelude.{
  ℕ, ◌+◌, Bool, true, false, not, Option, none, some, ltb, ◌==◌, ◌&&◌, ◌||◌, if◌then◌else◌, ◌>>=◌,
}
use xgc2_multirotor_controll.Prelude.Int.{ℤ, pos, negsuc, eqb_ℤ}
use xgc2_multirotor_controll.Double.{Double}
use xgc2_multirotor_controll.Clock.{should_run_every}
use xgc2_multirotor_controll.Time.{stamp_of_sec}
use xgc2_multirotor_controll.Types.{Config, flight_nmpc_request}
use xgc2_multirotor_controll.ResultBuffer.{
  NmpcSolveResult, begin_generation, is_generation_active, reserve_request_sequence,
  consume_newer_than, is_result_timestamp_fresh,
}
use xgc2_multirotor_controll.Cache.{ActiveTrajectoryCache, FlagBits, valid, finite_time_remaining}
use xgc2_multirotor_controll.Controller.{Controller, emit_flight_effect}
use xgc2_multirotor_controll.Tracking.{
  Custom1State, Tracked, count_failure, should_publish, publish_attitude, publish_hover_if_due,
  publish_backup_setpoint, post_reference_finished, wait_for_nmpc,
}

-- UavNmpcSolver::horizonSteps(), which is UAV_NMPC_N
abbrev pub horizon_steps : ℕ
horizon_steps = 10

-- nmpc_solver_status::kReferenceSamplingFailed
abbrev pub reference_sampling_failed : ℤ
reference_sampling_failed = negsuc 1

module _ {F : Type 0} ⦃d : Double F⦄ where
  open d use {lit, add, mul, div, le, of_int}

  -- A reference that ends, with at most `limit` seconds of it left
  unfoldable pub reference_ends_within :
      ⦃b : FlagBits⦄ → F → F → ActiveTrajectoryCache F → Option Bool
  reference_ends_within limit current_time cache = do
    now ← stamp_of_sec current_time
    remaining ← finite_time_remaining cache now
    some (elim remaining [ none ↦ false | some r ↦ le r limit ])

  unfoldable pub horizon_span : Config F → F
  horizon_span config =
      mul (div config.prediction_horizon (of_int (pos horizon_steps)))
        (of_int (pos (horizon_steps + 1)))

  -- referenceWillFinishBeforeNextHorizon
  unfoldable pub finishes_before_next_horizon : ⦃b : FlagBits⦄ → F → Controller F → Option Bool
  finishes_before_next_horizon current_time c =
      reference_ends_within (add (horizon_span c.config) (lit 1 6)) current_time
        c.active_trajectory_cache

  -- `shouldRunEvery(controller_.nmpcStaleOutputLogTimer(), 1.0, true)`
  unfoldable pub stale_warned : Controller F → Controller F
  stale_warned c = record c {
    nmpc_stale_output_log_timer =
        (should_run_every c.current_time c.nmpc_stale_output_log_timer (lit 1 0) true).0;
  }

module _ {F A B L : Type 0} ⦃d : Double F⦄ where
  open d use {lit, add, sub, lt, le, is_finite}

  unfoldable pub should_dispatch_nmpc : F → Custom1State F A B L → Controller F → Bool
  should_dispatch_nmpc current_time s c =
      not s.request_in_flight
      && (le s.last_request_time (lit 0 0)
          || le c.config.control_period (sub current_time s.last_request_time))

  -- the time of a request, on the grid of control periods while it keeps up
  unfoldable pub next_request_time : F → Custom1State F A B L → Controller F → F
  next_request_time current_time s c =
      let period = c.config.control_period in
      let grid = add s.last_request_time period in
      if le s.last_request_time (lit 0 0) || lt period (sub current_time grid)
      then current_time
      else grid

  unfoldable pub dispatch_nmpc_request : F → Custom1State F A B L → Controller F → Tracked F A B L
  unfolding next_request_time
  dispatch_nmpc_request current_time s c =
      let buffer = reserve_request_sequence c.nmpc_result_buffer in
      let sequence = buffer.request_counter in
      (
        record s {
          request_sequence = sequence;
          in_flight_sequence = sequence;
          request_in_flight = true;
          last_request_time = next_request_time current_time s c;
          request_deadline = add current_time c.config.solve_timeout;
        },
        emit_flight_effect (flight_nmpc_request current_time sequence s.control_generation)
            (record c { nmpc_result_buffer = buffer }),
      )

  -- a generation of the solver's results that the buffer has dropped is begun anew
  unfoldable pub renew_generation : Custom1State F A B L → Controller F → Tracked F A B L
  renew_generation s c =
      let buffer = begin_generation c.nmpc_result_buffer in
      if is_generation_active s.control_generation c.nmpc_result_buffer then (s, c) else (
        record s {
          control_generation = buffer.active_generation;
          request_sequence = buffer.request_counter;
          consumed_result_sequence = buffer.request_counter;
          request_in_flight = false;
          in_flight_sequence = 0;
          last_request_time = lit 0 0;
        },
        record c { nmpc_result_buffer = buffer },
      )

  -- a result of the request in flight is taken for it
  unfoldable pub match_result : NmpcSolveResult F → Custom1State F A B L → Custom1State F A B L
  match_result result s = record s {
    consumed_result_sequence = result.sequence;
    request_in_flight = s.request_in_flight && not (result.sequence == s.in_flight_sequence);
  }

  unfoldable pub use_success :
      F → NmpcSolveResult F → Custom1State F A B L → Controller F → Tracked F A B L
  use_success current_time result s c =
      publish_attitude current_time
        (record s { consecutive_failures = 0; last_success_time = current_time })
        (record c { attitude_rate_target = result.target })

  unfoldable pub dispatch_if_due : F → Custom1State F A B L → Controller F → Tracked F A B L
  dispatch_if_due current_time s c =
      if should_dispatch_nmpc current_time s c
      then dispatch_nmpc_request current_time s c
      else (s, c)

  module _ ⦃b : FlagBits⦄ where
    -- a result of the request in flight, fresh, without success
    unfoldable pub use_failure :
        F → NmpcSolveResult F → Custom1State F A B L → Controller F → Option (Tracked F A B L)
    use_failure current_time result s c =
        if eqb_ℤ result.solver_status reference_sampling_failed
        then (finishes_before_next_horizon current_time c >>= λ finishing.
            if finishing
            then some (post_reference_finished current_time s c)
            else publish_backup_setpoint current_time (count_failure s) c)
        else (if lt (lit 0 0) s.last_success_time
              && le (sub current_time s.last_success_time) c.config.result_timeout
            then some (publish_attitude current_time (count_failure s) c)
            else publish_backup_setpoint current_time (count_failure s) c)

    unfoldable pub use_result :
        F → NmpcSolveResult F → Custom1State F A B L → Controller F → Option (Tracked F A B L)
    unfolding match_result
    use_result current_time result s c =
        let matched = match_result result s in
        if not (is_finite current_time) || lt current_time (lit 0 0)
        then some (matched, c)
        else (stamp_of_sec current_time >>= λ now.
            if not (is_result_timestamp_fresh result.stamp now c.config.result_timeout)
              || not (result.sequence == s.in_flight_sequence)
                && ltb result.sequence s.request_sequence
            then some (matched, c)
            else (if not result.success
                then use_failure current_time result matched c
                else some (use_success current_time result matched c)))

    unfoldable pub use_consumed :
        F
        → Option (NmpcSolveResult F)
        → Custom1State F A B L
        → Controller F
        → Option (Tracked F A B L)
    use_consumed current_time none s c = some (s, c)
    use_consumed current_time (some result) s c =
        if not (result.control_generation == s.control_generation)
          || not (result.sequence == s.in_flight_sequence)
        then some (s, c)
        else use_result current_time result s c

    unfoldable pub consume_nmpc_result :
        F → Custom1State F A B L → Controller F → Option (Tracked F A B L)
    unfolding use_consumed
    consume_nmpc_result current_time s c =
        use_consumed current_time
          (consume_newer_than s.consumed_result_sequence c.nmpc_result_buffer) s c

    -- a request whose deadline has passed is given up
    unfoldable pub expire_request :
        F → Custom1State F A B L → Controller F → Option (Tracked F A B L)
    expire_request current_time s c =
        if s.request_in_flight && lt s.request_deadline current_time
        then publish_backup_setpoint current_time
            (record (count_failure s) { request_in_flight = false }) c
        else some (s, c)

    unfoldable pub cover_stale_output :
        F → Custom1State F A B L → Controller F → Option (Tracked F A B L)
    unfolding stale_warned
    cover_stale_output current_time s c =
        let timeout = c.config.result_timeout in
        if lt (lit 0 0) s.last_success_time
          && lt (lit 0 0) timeout
          && lt timeout (sub current_time s.last_success_time)
        then (if should_publish current_time s (stale_warned c)
            then publish_backup_setpoint current_time s (stale_warned c)
            else some (s, stale_warned c))
        else some (s, c)

    -- the reference is valid
    unfoldable pub solve_reference :
        F → Custom1State F A B L → Controller F → Option (Tracked F A B L)
    solve_reference current_time s c = finishes_before_next_horizon current_time c >>= λ finishing.
        if finishing
        then some (post_reference_finished current_time s c)
        else (cover_stale_output current_time s c >>= λ covered.
            some (dispatch_if_due current_time covered.0 covered.1))

    -- what is in force is asked for, or waited for
    unfoldable pub follow_reference :
        F → Custom1State F A B L → Controller F → Option (Tracked F A B L)
    unfolding solve_reference
    follow_reference current_time s c =
        if not (valid c.active_trajectory_cache)
        then some (
            publish_hover_if_due current_time
              (wait_for_nmpc c (record s { tracking_armed = false })) c)
        else solve_reference current_time (record s { tracking_armed = true }) c

    unfoldable pub handle_nmpc_event_mode :
        F → Custom1State F A B L → Controller F → Option (Tracked F A B L)
    unfolding follow_reference
    handle_nmpc_event_mode current_time s c = do
      let renewed = renew_generation s c
      consumed ← consume_nmpc_result current_time renewed.0 renewed.1
      expired ← expire_request current_time consumed.0 consumed.1
      follow_reference current_time expired.0 expired.1
