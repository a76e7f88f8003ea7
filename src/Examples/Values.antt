-- ===== src/Examples/Values.antt =====
-- A vehicle on the ground with every sensor there, and the state holder as a pair.
use xgc2_multirotor_controll.Prelude.{Bool, true, false, none, [], refl, arith}
use xgc2_multirotor_controll.Prelude.Int.{ℤ, pos}
use xgc2_multirotor_controll.Time.{Stamp}
use xgc2_multirotor_controll.Types.{
  Config, TopicStats, Kinematics, SensorData, AttitudeRateTarget, dfbc, rigid_estimate, legacy,
  trajectory_cache, zero_vector, default_setpoint, default_trajectory,
}
use xgc2_multirotor_controll.ResultBuffer.{NmpcSolveResult, NmpcResultBuffer}
use xgc2_multirotor_controll.Controller.{Controller, publish_interval}
use xgc2_multirotor_controll.Clock.{fresh_timer}
use xgc2_multirotor_controll.Cache.{cleared}
use xgc2_multirotor_controll.Health.{initial_health}
use xgc2_multirotor_controll.Flight.Turn.{Leaf, self_check, Custom1, AdtMachine, IsMachine}
use xgc2_multirotor_controll.Double.Order.{NumberLaws}
use xgc2_multirotor_controll.Flight.Debug.{initial_debug}
use xgc2_multirotor_controll.Flight.Runtime.{Runtime}
use xgc2_multirotor_controll.Leaves.Ground.{new_self_check}
use xgc2_multirotor_controll.Examples.FixedPoint.{milli}

abbrev pub config : Config ℤ
config = record {
  takeoff_altitude = pos 1000;
  skip_takeoff_init_disarm = false;
  planning_period = pos 100;
  tracking_backend = dfbc;
  px4_local_lift = legacy;
  local_type_mask = 3072;
  enable_yaw_control = false;
  plan_hover_xy_tol = pos 500;
  plan_hover_z_tol = pos 500;
  world_boundary = none;
  max_velocity_xy = pos 5000;
  max_velocity_z = pos 2000;
  acc_saturation_xy = pos 3000;
  acc_saturation_z = pos 3000;
  state_estimate_unusable_trip_delay = pos 150;
  reference_source = trajectory_cache;
  smc_k1 = pos 500;
  smc_k2 = pos 500;
  smc_boundary_layer = pos 10;
  control_period = pos 10;
  prediction_horizon = pos 1000;
  gravity = pos 9807;
  min_hover_thrust = pos 50;
  max_hover_thrust = pos 950;
  normalized_thrust_min = pos 100;
  normalized_thrust_max = pos 900;
  max_roll_pitch_body_rate = pos 3491;
  max_yaw_body_rate = pos 873;
  hover_thrust_enabled = true;
  hover_thrust_timeout = pos 500;
  solve_timeout = pos 30;
  result_timeout = pos 100;
  acceleration_correction_enabled = false;
  acceleration_measurement_timeout = pos 50;
}

-- at rest, upright, at an altitude
abbrev pub at_altitude : ℤ → Kinematics ℤ
at_altitude z = record {
  position = record { x = pos 0; y = pos 0; z = z };
  velocity = zero_vector;
  qx = pos 0;
  qy = pos 0;
  qz = pos 0;
  qw = pos 1000;
}

abbrev pub received : TopicStats
received = record { is_active = true; is_new = true }

abbrev pub sensor : SensorData ℤ
sensor = record {
  feedback_source = rigid_estimate;
  mavros_inertial_valid = true;
  estimate = at_altitude (pos 0);
  local = at_altitude (pos 0);
  vrpn = zero_vector;
  paired_local_pv = none;
  body_rate = zero_vector;
  mavros_body_rate = zero_vector;
  acceleration = zero_vector;
  mavros_world_acceleration = zero_vector;
  mavros_imu_stamp = pos 0;
  uav_state_estimate_stamp = pos 0;
  hover_thrust_estimate_available = true;
  hover_thrust_estimate = pos 500;
  hover_thrust_estimate_stamp = pos 900;
  estimator_state = 3;
  estimator_flags = 0;
  fcu_connected = true;
  fcu_armed = false;
  fcu_manual_input = true;
  fcu_mode = "ALTCTL";
  estimate_stats = received;
  local_pos_stats = received;
  local_velocity_stats = received;
  imu_stats = received;
  state_stats = received;
  vrpn_pose_stats = received;
}

abbrev pub epoch : Stamp
epoch = record { sec = 0; nsec = 0 }

abbrev pub no_target : AttitudeRateTarget ℤ
no_target = record { body_rate = zero_vector; thrust = pos 0 }

abbrev pub no_result : NmpcSolveResult ℤ
no_result = record {
  control_generation = 0;
  sequence = 0;
  success = false;
  timed_out = false;
  solver_status = pos 0;
  solve_time_ms = pos 0;
  stamp = epoch;
  target = no_target;
}

abbrev pub empty_buffer : NmpcResultBuffer ℤ
empty_buffer = record {
  latest = no_result;
  has_result = false;
  generation_counter = 0;
  active_generation = 0;
  request_counter = 0;
}

abbrev pub controller : Controller ℤ
controller = record {
  config = config;
  sensor = sensor;
  setpoint = default_setpoint;
  attitude_rate_target = no_target;
  mpc_trajectory_buffer = record { active = default_trajectory; pending = default_trajectory };
  nmpc_result_buffer = empty_buffer;
  current_time = pos 1000;
  active_trajectory_cache = cleared;
  nmpc_stale_output_log_timer = fresh_timer;
  custom1_publish_period = publish_interval;
  custom1_requested = false;
  effects = [];
  signals = [];
  diagnostic_events = [];
}

-- a tracking state that does nothing
abbrev pub idle_tracking : Custom1 ℤ Bool
idle_tracking = record {
  create = true;
  on_enter = λ s c. (s, c);
  on_tick = λ s c. (s, c);
  on_exit = λ s c. (s, c);
  next_wake = λ s c. none;
}

abbrev pub FlightLeaf : Type 0
FlightLeaf = Leaf ℤ Bool

abbrev pub machine : AdtMachine FlightLeaf (FlightLeaf × ℤ)
machine = record {
  start = λ s t. (s, t);
  state = λ x. x.0;
  entered_at = λ x. x.1;
  put = λ s x. (s, x.1);
  apply = λ s t x. (s, t);
}

pub machine_laws : IsMachine machine
machine_laws = record {
  state-start = λ s t. refl;
  entered_at-start = λ s t. refl;
  state-put = λ s x. refl;
  entered_at-put = λ s x. refl;
  state-apply = λ s t x. refl;
  entered_at-apply = λ s t x. refl;
}

abbrev pub runtime : Runtime ℤ (FlightLeaf × ℤ)
runtime = record {
  controller = controller;
  health = initial_health;
  debug = initial_debug;
  machine = (self_check new_self_check, pos 0);
  pending_commands = [];
  commands = [];
  deferred_signals = [];
}

pub milli-NumberLaws : NumberLaws ℤ
milli-NumberLaws = record {
  lt_le = λ a b h. ground arith;
  le_left = λ a b h. ground arith;
  le_right = λ a b h. ground arith;
  trans = λ a b c h k. ground arith;
  lt_le_trans = λ a b c h k. ground arith;
  le_lt_trans = λ a b c h k. ground arith;
  total = λ a b h k l. ground arith;
}
