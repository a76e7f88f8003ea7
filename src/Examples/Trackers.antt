-- ===== src/Examples/Trackers.antt =====
-- Custom1 on the vehicle of Examples.Values: NMPC along a reference that lasts a minute, with strategies
-- that always succeed.
use xgc2_multirotor_controll.Prelude.{
  ◌+◌, ◌≡◌, ◌≤◌, ◌<◌, ◌⊎◌, refl, Bool, true, false, some, none, ◌∷◌, [], ◌++◌, arith,
}
use xgc2_multirotor_controll.Prelude.Int.{ℤ, pos, ◌*ℤ◌, ◌-ℤ◌, rem, ◌+ℤ◌, quot}
use xgc2_multirotor_controll.Time.{
  Stamp, stamp_of_sec, stamp_sub, is_zero, stamp_ns, signed64, duration_of_ns, normalize_signed,
  duration_sec,
}
use xgc2_multirotor_controll.Types.{nmpc, zero_vector, default_setpoint}
use xgc2_multirotor_controll.ResultBuffer.{
  is_generation_active, consume_newer_than, NmpcSolveResult, NmpcResultBuffer, store,
  begin_generation, reserve_request_sequence, invalidate_generation,
}
use xgc2_multirotor_controll.Cache.{
  cleared, FlatOutput, FlagBits, ActiveTrajectoryCache, valid, sample, live_evaluator, sample_live,
  elapsed_since, fatal_reference_flags, finite_time_remaining, remaining_live,
}
use xgc2_multirotor_controll.Controller.{Controller, emit_flight_effect, clear_custom1_request}
use xgc2_multirotor_controll.Tracking.{
  post_reference_finished, Strategy, Custom1State, Tracked, new_custom1_state,
}
use xgc2_multirotor_controll.Tracking.Local.{Sign}
use xgc2_multirotor_controll.Tracking.Nmpc.{
  consume_nmpc_result, use_consumed, expire_request, follow_reference, solve_reference,
  handle_nmpc_event_mode, finishes_before_next_horizon, reference_ends_within, horizon_span,
  renew_generation,
}
use xgc2_multirotor_controll.Tracking.Session.{
  custom1_on_enter, custom1_on_exit, start_session, request_reference, Strategies, custom1_on_tick,
  tick_backend, start_backend,
}
use xgc2_multirotor_controll.Tracking.Run.{
  finished_once, just_entered, stayed, Run, begun, ticked, dispatch_order, Increasing, numbers,
}
use xgc2_multirotor_controll.Tracking.Answers.{Answers, target_of_request, no_result_after_exit}
use xgc2_multirotor_controll.ResultBuffer.Invariant.{Inv}
use xgc2_multirotor_controll.ResultBuffer.Steps.{here, next, begin, reserve, put}
use xgc2_multirotor_controll.Tracking.Deadline.{Dispatched, expired_request_replaced}
use xgc2_multirotor_controll.Tracking.Emitted.{requests, finishes, bit}
use xgc2_multirotor_controll.Examples.FixedPoint.{milli, floor_milli, round_milli}
use xgc2_multirotor_controll.Examples.Values.{
  milli-NumberLaws, config, controller, no_target, no_result,
}
use xgc2_multirotor_controll.Clock.{controller_strict_due_at, controller_due_at, timer_due_at}
use xgc2_multirotor_controll.Tracking.Wake.{
  custom1_next_wake, custom1_wakes, nmpc_wakes, pending_wake, stage_end_wake,
}
use xgc2_multirotor_controll.Tracking.Awake.{StepsOn, wakes_for_deadline}

instance abbrev flag_bits : FlagBits
flag_bits = record { invalid_input = 1; non_finite = 2; low_thrust = 4; yaw_singularity = 8 }

instance abbrev milli_sign : Sign ℤ
milli_sign = record { sign = λ a. a; sign_beta = λ a b. a }

abbrev obliging : Strategy ℤ Bool
obliging = record {
  create = false;
  configure = λ config s. s;
  enter = λ sensor now s. (true, true);
  exit = λ s. false;
  update = λ input s. (
    s,
    some (record {
      is_local = true;
      attitude_rate_target = no_target;
      local_setpoint = default_setpoint;
    }),
  );
  period = λ s. pos 10;
}

abbrev strategies : Strategies ℤ Bool Bool Bool
strategies = record {
  dfbc_strategy = obliging;
  smc_strategy = obliging;
  px4_local_raw_strategy = obliging;
}

-- a reference that hovers at the origin for a minute
abbrev at_rest : FlatOutput ℤ
at_rest = record {
  position = zero_vector;
  velocity = zero_vector;
  acceleration = zero_vector;
  jerk = zero_vector;
  snap = zero_vector;
  yaw = pos 0;
  yaw_rate = pos 0;
  yaw_accel = pos 0;
  flags = 0;
}

abbrev minute : ActiveTrajectoryCache ℤ
minute = record {
  evaluator = some (record { duration = pos 60_000; evaluate = λ t. some at_rest });
  trajectory_id = 1;
  revision = 1;
  sequence = 1;
  start_time = record { sec = 1; nsec = 0 };
  flags = 0;
}

-- a request sent at 0.9 s, its deadline at 0.93 s; the clock is at 1 s
abbrev late : Custom1State ℤ Bool Bool Bool
late = record (new_custom1_state false false false) {
  request_sequence = 1;
  control_generation = 1;
  in_flight_sequence = 1;
  request_in_flight = true;
  last_request_time = pos 900;
  request_deadline = pos 930;
}

abbrev tracking : Controller ℤ
tracking = record controller {
  config = record config { tracking_backend = nmpc };
  active_trajectory_cache = minute;
  nmpc_result_buffer = record {
    latest = no_result;
    has_result = false;
    generation_counter = 1;
    active_generation = 1;
    request_counter = 1;
  };
}

abbrev one_second : Stamp
one_second = record { sec = 1; nsec = 0 }

one_second_read : stamp_of_sec (pos 1000) ≡ some one_second
unfolding stamp_of_sec ◌*ℤ◌ floor_milli round_milli quot ◌-ℤ◌
one_second_read = refl

minute_sampled :
    sample minute one_second ≡ some (some (record { t_from_start = pos 0; flat = at_rest }))
unfolding sample sample_live live_evaluator elapsed_since fatal_reference_flags is_zero stamp_sub
    stamp_ns signed64 duration_of_ns normalize_signed duration_sec quot rem ◌+ℤ◌ ◌*ℤ◌
minute_sampled = refl

minute_unfinished : finishes_before_next_horizon (pos 1000) tracking ≡ some false
unfolding finishes_before_next_horizon reference_ends_within horizon_span finite_time_remaining
    remaining_live live_evaluator elapsed_since fatal_reference_flags is_zero stamp_sub stamp_ns
    signed64 duration_of_ns normalize_signed duration_sec stamp_of_sec ◌*ℤ◌ floor_milli quot
    round_milli ◌-ℤ◌ rem ◌+ℤ◌
minute_unfinished = refl

expired_request_replaced_example :
    (u : Tracked ℤ Bool Bool Bool) × (handle_nmpc_event_mode (pos 1000) late tracking ≡ some u)
    × Dispatched (pos 1000) late tracking u
unfolding is_generation_active consume_newer_than valid live_evaluator fatal_reference_flags is_zero
    ◌-ℤ◌
expired_request_replaced_example =
    expired_request_replaced (pos 1000) one_second
      (some (record { t_from_start = pos 0; flat = at_rest })) late tracking refl refl refl refl
      one_second_read minute_sampled refl minute_unfinished refl

-- the tick on which the late request is replaced
abbrev replaced : Tracked ℤ Bool Bool Bool
replaced = expired_request_replaced_example.0

replaced_tick : custom1_on_tick strategies late tracking ≡ some replaced
unfolding custom1_on_tick tick_backend
replaced_tick = expired_request_replaced_example.1

replaced_run : Run strategies (late, tracking) ([] ++ requests replaced.1.effects) replaced
replaced_run = ticked tracking begun refl refl replaced_tick

dispatch_order_example :
    Increasing 1
      (numbers ([] ++ requests replaced.1.effects))
      replaced.1.nmpc_result_buffer.request_counter
dispatch_order_example =
    dispatch_order strategies (late, tracking) ([] ++ requests replaced.1.effects) replaced
      replaced_run

target_of_request_example :
    let (s', c') = renew_generation late tracking in
    (replaced.1.attitude_rate_target ≡ tracking.attitude_rate_target)
    ⊎ ((r : NmpcSolveResult ℤ) × (consume_newer_than s'.consumed_result_sequence
            c'.nmpc_result_buffer
          ≡ some r)
        × Answers (pos 1000) r s' c'
        × (replaced.1.attitude_rate_target ≡ r.target))
target_of_request_example =
    target_of_request (pos 1000) late tracking replaced expired_request_replaced_example.1

-- what the buffer becomes in the next session: a generation, a request and its result
abbrev next_result : NmpcSolveResult ℤ
next_result = record no_result { control_generation = 2; sequence = 2; success = true }

abbrev next_session : NmpcResultBuffer ℤ
next_session =
    (store next_result (
      reserve_request_sequence
        (begin_generation (custom1_on_exit strategies late tracking).1.nmpc_result_buffer))).0

tracking-Inv : Inv tracking.nmpc_result_buffer
tracking-Inv = record {
  active_issued = omega arith;
  result_active = λ h. cc;
  result_live = λ h. cc;
  result_requested = λ h. cc;
  result_numbered = λ h. cc;
  result_canonical = λ h. cc;
}

no_result_after_exit_example : 1 < 2
unfolding is_generation_active consume_newer_than store reserve_request_sequence begin_generation
    custom1_on_exit invalidate_generation
no_result_after_exit_example =
    no_result_after_exit strategies late tracking 0 next_session next_result tracking-Inv refl
      (next (next (next here begin) reserve) (put next_result)) refl

-- Custom1 entered along a reference that ends within the horizon: its first tick signals so
abbrev entered_state : Custom1State ℤ Bool Bool Bool
entered_state = (start_session late tracking).0

abbrev entered_controller : Controller ℤ
entered_controller = request_reference (start_session late tracking).1

entered_step : custom1_on_enter strategies late tracking ≡ some (entered_state, entered_controller)
unfolding custom1_on_enter start_backend
entered_step = refl

abbrev nearly_done : Controller ℤ
nearly_done = record entered_controller {
  active_trajectory_cache = record minute {
    evaluator = some (record { duration = pos 1000; evaluate = λ t. some at_rest });
  };
}

abbrev posted : Tracked ℤ Bool Bool Bool
posted =
    post_reference_finished (pos 1000) (record entered_state { tracking_armed = true }) nearly_done

posted_step : custom1_on_tick strategies entered_state nearly_done ≡ some posted
unfolding custom1_on_tick tick_backend request_reference emit_flight_effect start_session
    clear_custom1_request handle_nmpc_event_mode consume_nmpc_result use_consumed consume_newer_than
    renew_generation is_generation_active begin_generation expire_request valid live_evaluator
    fatal_reference_flags is_zero finishes_before_next_horizon reference_ends_within horizon_span
    stamp_of_sec follow_reference solve_reference finite_time_remaining remaining_live elapsed_since
    stamp_sub stamp_ns signed64 duration_of_ns normalize_signed duration_sec ◌*ℤ◌ floor_milli quot
    round_milli ◌-ℤ◌ rem ◌+ℤ◌
posted_step = refl

finished_once_example :
    (0 + finishes posted.1.signals ≤ 1)
    × (0 + finishes posted.1.signals ≡ bit posted.0.reference_finish_event_posted)
unfolding finishes request_reference emit_flight_effect start_session clear_custom1_request
finished_once_example =
    finished_once strategies late tracking (entered_state, entered_controller)
      (0 + finishes posted.1.signals) posted.0 entered_step
      (stayed nearly_done just_entered refl posted_step)

-- the same request, without a reference in force
abbrev waiting : Custom1State ℤ Bool Bool Bool
waiting = record late { last_publish_time = pos 980 }

abbrev unreferenced : Controller ℤ
unreferenced = record tracking { active_trajectory_cache = cleared }

waiting_wakes :
    custom1_wakes obliging waiting unreferenced
    ≡ some (none ∷ none ∷ some (pos 931) ∷ some (pos 1013) ∷ none ∷ [])
unfolding custom1_wakes stamp_of_sec ◌*ℤ◌ floor_milli pending_wake stage_end_wake nmpc_wakes valid
    is_zero controller_strict_due_at controller_due_at timer_due_at ◌-ℤ◌ ◌+ℤ◌ quot
waiting_wakes = refl

late_steps : StepsOn late.request_deadline
unfolding ◌+ℤ◌ ◌-ℤ◌
late_steps = record { kept = refl; stepped = refl; apart = λ h. cc }

wakes_for_deadline_example :
    let x = controller_strict_due_at waiting.request_deadline (pos 0) in
    (w : ℤ) × (custom1_next_wake obliging waiting unreferenced ≡ some (some w))
    × (milli.le w x ≡ true)
    × (milli.lt waiting.request_deadline x ≡ true)
wakes_for_deadline_example =
    wakes_for_deadline obliging waiting unreferenced
      (none ∷ none ∷ some (pos 931) ∷ some (pos 1013) ∷ none ∷ []) milli-NumberLaws late_steps refl
      refl waiting_wakes (tt, (tt, (refl, (refl, (tt, tt)))))
