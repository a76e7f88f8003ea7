-- ===== src/Tracking/Session.antt =====
-- Custom1State::onEnter, onTick and onExit of src/uav/state_machine/custom1_state.cpp.
use xgc2_multirotor_controll.Prelude.{false, Option, some, if◌then◌else◌, ◌>>=◌}
use xgc2_multirotor_controll.Double.{Double}
use xgc2_multirotor_controll.Clock.{timer_reset, timer_stop}
use xgc2_multirotor_controll.Time.{stamp_of_sec}
use xgc2_multirotor_controll.Types.{
  TrackingBackend, px4_local, nmpc, dfbc, smc, pva_smc, default_setpoint, default_trajectory,
  flight_reference_activation,
}
use xgc2_multirotor_controll.SensorChecks.{world}
use xgc2_multirotor_controll.ResultBuffer.{begin_generation, invalidate_generation}
use xgc2_multirotor_controll.Cache.{FlagBits, cleared}
use xgc2_multirotor_controll.Controller.{
  Controller, clear_custom1_request, emit_flight_effect, publish_interval,
}
use xgc2_multirotor_controll.Tracking.{Strategy, Custom1State, Tracked}
use xgc2_multirotor_controll.Tracking.Local.{
  Sign, handle_px4_local_pass_through, handle_pva_smc_mode,
}
use xgc2_multirotor_controll.Tracking.Smc.{handle_smc_mode}
use xgc2_multirotor_controll.Tracking.Nmpc.{handle_nmpc_event_mode}
use xgc2_multirotor_controll.Tracking.Dfbc.{handle_synchronous_mode, is_streaming}

-- The strategies of a Custom1State.
pub record Strategies (F A B L : Type 0) : Type 0 where
  pub dfbc_strategy : Strategy F A
  pub smc_strategy : Strategy F B
  pub px4_local_raw_strategy : Strategy F L

module _ {F : Type 0} where
  -- drop the reference in force and ask for another
  unfoldable pub request_reference : Controller F → Controller F
  request_reference c =
      emit_flight_effect (flight_reference_activation c.current_time)
        (record c { active_trajectory_cache = cleared })

module _ {F A B L : Type 0} ⦃d : Double F⦄ where
  open d use {lit}

  -- the part of onEnter that does not depend on the backend
  unfoldable pub start_session : Custom1State F A B L → Controller F → Tracked F A B L
  start_session s c =
      let buffer = begin_generation c.nmpc_result_buffer in
      (
        record s {
          command_time = c.current_time;
          hover = (world c.sensor c.config.tracking_backend).position;
          tracking_armed = false;
          control_generation = buffer.active_generation;
          request_sequence = buffer.request_counter;
          in_flight_sequence = 0;
          consumed_result_sequence = buffer.request_counter;
          request_in_flight = false;
          last_request_time = lit 0 0;
          request_deadline = lit 0 0;
          last_success_time = lit 0 0;
          last_publish_time = lit 0 0;
          consecutive_failures = 0;
          reference_finish_event_posted = false;
          sync_strategy_entered = false;
          tracking_position_held = false;
          tracking_frozen_hover = default_setpoint;
        },
        record (clear_custom1_request c) {
          nmpc_result_buffer = buffer;
          nmpc_stale_output_log_timer = timer_reset c.current_time c.nmpc_stale_output_log_timer;
        },
      )

  module _ (strategies : Strategies F A B L) where
    unfoldable pub start_backend :
        TrackingBackend → Custom1State F A B L → Controller F → Option (Tracked F A B L)
    unfolding request_reference
    start_backend nmpc s c = some (s, request_reference c)
    start_backend dfbc s c =
        let configured = record s {
          dfbc_strategy = strategies.dfbc_strategy.configure c.config s.dfbc_strategy;
        } in
        some (
          configured,
          if is_streaming c.config.reference_source
              then record c {
                active_trajectory_cache = cleared;
                mpc_trajectory_buffer = record {
                  active = default_trajectory;
                  pending = default_trajectory;
                };
              }
              else request_reference c,
        )
    start_backend smc s c =
        some
          (record s { smc_strategy = strategies.smc_strategy.configure c.config s.smc_strategy }, c)
    start_backend pva_smc s c = some (s, record c { custom1_publish_period = lit 1 2 })
    start_backend px4_local s c = do
      now ← stamp_of_sec s.command_time
      let raw = strategies.px4_local_raw_strategy
      let configured = raw.configure c.config s.px4_local_raw_strategy
      some (
        record s { px4_local_raw_strategy = (raw.enter c.sensor now configured).0 },
        record c { custom1_publish_period = publish_interval },
      )

    unfoldable pub custom1_on_enter : Custom1State F A B L → Controller F → Option (Tracked F A B L)
    unfolding start_session
    custom1_on_enter s c =
        let started = start_session s c in
        start_backend c.config.tracking_backend started.0 started.1

    unfoldable pub tick_backend :
        ⦃b : FlagBits⦄
        → ⦃g : Sign F⦄ → TrackingBackend
        → F
        → Custom1State F A B L
        → Controller F
        → Option (Tracked F A B L)
    tick_backend nmpc t s c = handle_nmpc_event_mode t s c
    tick_backend dfbc t s c = handle_synchronous_mode strategies.dfbc_strategy t s c
    tick_backend smc t s c = handle_smc_mode strategies.smc_strategy t s c
    tick_backend pva_smc t s c = handle_pva_smc_mode t s c
    tick_backend px4_local t s c = handle_px4_local_pass_through t s c

    unfoldable pub custom1_on_tick :
        ⦃b : FlagBits⦄
        → ⦃g : Sign F⦄ → Custom1State F A B L
        → Controller F
        → Option (Tracked F A B L)
    unfolding tick_backend
    custom1_on_tick s c = tick_backend c.config.tracking_backend c.current_time s c

    -- the part of onExit that depends on the backend
    unfoldable pub exit_backend : TrackingBackend → Custom1State F A B L → Custom1State F A B L
    exit_backend nmpc s = s
    exit_backend dfbc s = record s {
      dfbc_strategy = strategies.dfbc_strategy.exit s.dfbc_strategy;
      sync_strategy_entered = false;
    }
    exit_backend smc s = record s {
      smc_strategy = strategies.smc_strategy.exit s.smc_strategy;
      sync_strategy_entered = false;
    }
    exit_backend pva_smc s = s
    exit_backend px4_local s = record s {
      px4_local_raw_strategy = strategies.px4_local_raw_strategy.exit s.px4_local_raw_strategy;
      sync_strategy_entered = false;
    }

    unfoldable pub custom1_on_exit : Custom1State F A B L → Controller F → Tracked F A B L
    unfolding exit_backend
    custom1_on_exit s c = (
      record (exit_backend c.config.tracking_backend s) {
        nmpc_wait_log_timer = timer_stop s.nmpc_wait_log_timer;
        trajectory_wait_log_timer = timer_stop s.trajectory_wait_log_timer;
        tracking_armed = false;
        request_in_flight = false;
      },
      record c {
        nmpc_result_buffer = invalidate_generation s.control_generation c.nmpc_result_buffer;
      },
    )
