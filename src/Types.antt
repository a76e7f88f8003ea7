-- ===== src/Types.antt =====
-- px4_multirotor_controller/include/px4_multirotor_controller/common/types.h, uav/flight_effect.h,
-- uav/flight_signal.h, driver/command_input.h and common/world_boundary.h: the data that the
-- components share. Fields that only feed logs and published diagnostics are left out.
use xgc2_multirotor_controll.Prelude.{ℕ, Bool, true, false, ◌||◌, String, Option}
use xgc2_multirotor_controll.Double.{Double}
use xgc2_multirotor_controll.Time.{Stamp}

pub data TrackingBackend : Type 0 where
  px4_local nmpc dfbc smc pva_smc : TrackingBackend

pub data DfbcReferenceSource : Type 0 where
  trajectory_cache planner_setpoint : DfbcReferenceSource

pub data FeedbackSource : Type 0 where
  rigid_estimate mavros_local : FeedbackSource

pub data Px4LocalLiftMode : Type 0 where
  legacy zero_order_hold : Px4LocalLiftMode

unfoldable pub tracking_uses_fused_estimate : TrackingBackend → Bool
tracking_uses_fused_estimate nmpc = true
tracking_uses_fused_estimate dfbc = true
tracking_uses_fused_estimate _ = false

pub record Vector3 (F : Type 0) : Type 0 where
  pub x : F
  pub y : F
  pub z : F

-- WorldControlBounds and WorldBoundary
pub record ControlBounds (F : Type 0) : Type 0 where
  pub x_min : F
  pub x_max : F
  pub y_min : F
  pub y_max : F
  pub z_min : F
  pub z_max : F

pub record WorldBoundary (F : Type 0) : Type 0 where
  pub control_bounds : Option (ControlBounds F)
  pub ground_z : Option F

unfoldable pub outside : {F : Type 0} ⦃d : Double F⦄ → ControlBounds F → F → F → F → Bool
outside ⦃d⦄ b x y z =
    d.lt x b.x_min
    || d.lt b.x_max x
    || d.lt y b.y_min
    || d.lt b.y_max y
    || d.lt z b.z_min
    || d.lt b.z_max z

-- The part of ControllerConfig that the modelled components read.
pub record Config (F : Type 0) : Type 0 where
  pub takeoff_altitude : F
  pub skip_takeoff_init_disarm : Bool
  pub planning_period : F
  pub tracking_backend : TrackingBackend
  pub px4_local_lift : Px4LocalLiftMode
  pub local_type_mask : ℕ
  pub enable_yaw_control : Bool
  pub plan_hover_xy_tol : F
  pub plan_hover_z_tol : F
  pub world_boundary : Option (WorldBoundary F)
  pub max_velocity_xy : F
  pub max_velocity_z : F
  pub acc_saturation_xy : F
  pub acc_saturation_z : F
  pub state_estimate_unusable_trip_delay : F
  pub reference_source : DfbcReferenceSource
  pub smc_k1 : F
  pub smc_k2 : F
  pub smc_boundary_layer : F
  pub control_period : F
  pub prediction_horizon : F
  pub gravity : F
  pub min_hover_thrust : F
  pub max_hover_thrust : F
  pub normalized_thrust_min : F
  pub normalized_thrust_max : F
  pub max_roll_pitch_body_rate : F
  pub max_yaw_body_rate : F
  pub hover_thrust_enabled : Bool
  pub hover_thrust_timeout : F
  pub solve_timeout : F
  pub result_timeout : F
  pub acceleration_correction_enabled : Bool
  pub acceleration_measurement_timeout : F

-- SensorData::TopicStats, as far as the core reads it
pub record TopicStats : Type 0 where
  pub is_active : Bool
  pub is_new : Bool

-- Position, velocity and attitude of one source.
pub record Kinematics (F : Type 0) : Type 0 where
  pub position : Vector3 F
  pub velocity : Vector3 F
  pub qx : F
  pub qy : F
  pub qz : F
  pub qw : F

-- SensorData::LocalPv
pub record LocalPv (F : Type 0) : Type 0 where
  pub position : Vector3 F
  pub velocity : Vector3 F

-- SensorData: `estimate` holds x … qw, `local` holds local_x … local_vz, `vrpn` the canonical position
pub record SensorData (F : Type 0) : Type 0 where
  pub feedback_source : FeedbackSource
  pub mavros_inertial_valid : Bool
  pub estimate : Kinematics F
  pub local : Kinematics F
  pub vrpn : Vector3 F
  pub paired_local_pv : Option (LocalPv F)
  pub body_rate : Vector3 F
  pub mavros_body_rate : Vector3 F
  pub acceleration : Vector3 F
  pub mavros_world_acceleration : Vector3 F
  pub mavros_imu_stamp : F
  pub uav_state_estimate_stamp : F
  pub hover_thrust_estimate_available : Bool
  pub hover_thrust_estimate : F
  pub hover_thrust_estimate_stamp : F
  pub estimator_state : ℕ
  pub estimator_flags : ℕ
  pub fcu_connected : Bool
  pub fcu_armed : Bool
  pub fcu_manual_input : Bool
  pub fcu_mode : String
  pub estimate_stats : TopicStats
  pub local_pos_stats : TopicStats
  pub local_velocity_stats : TopicStats
  pub imu_stats : TopicStats
  pub state_stats : TopicStats
  pub vrpn_pose_stats : TopicStats

pub record Setpoint (F : Type 0) : Type 0 where
  pub position : Vector3 F
  pub velocity : Vector3 F
  pub acceleration : Vector3 F
  pub qx : F
  pub qy : F
  pub qz : F
  pub qw : F
  pub yaw_rate : F
  pub type_mask : ℕ  -- uint16_t
  pub coordinate_frame : ℕ  -- uint8_t

pub record AttitudeRateTarget (F : Type 0) : Type 0 where
  pub body_rate : Vector3 F
  pub thrust : F

pub record MpcTrajectoryState (F : Type 0) : Type 0 where
  pub position_k : Vector3 F
  pub velocity_k : Vector3 F
  pub acceleration_k : Vector3 F
  pub planning_time : Stamp
  pub qx : F
  pub qy : F
  pub qz : F
  pub qw : F
  pub yaw_rate : F
  pub type_mask : ℕ  -- uint16_t
  pub coordinate_frame : ℕ  -- uint8_t
  pub is_valid : Bool
  pub new_data_received : Bool

module _ {F : Type 0} ⦃d : Double F⦄ where
  abbrev pub zero_vector : Vector3 F
  zero_vector = record { x = d.lit 0 0; y = d.lit 0 0; z = d.lit 0 0 }

  -- the default member initializers
  abbrev pub default_setpoint : Setpoint F
  default_setpoint = record {
    position = zero_vector;
    velocity = zero_vector;
    acceleration = zero_vector;
    qx = d.lit 0 0;
    qy = d.lit 0 0;
    qz = d.lit 0 0;
    qw = d.lit 1 0;
    yaw_rate = d.lit 0 0;
    type_mask = 0;
    coordinate_frame = 1;
  }

  abbrev pub default_trajectory : MpcTrajectoryState F
  default_trajectory = record {
    position_k = zero_vector;
    velocity_k = zero_vector;
    acceleration_k = zero_vector;
    planning_time = record { sec = 0; nsec = 0 };
    qx = d.lit 0 0;
    qy = d.lit 0 0;
    qz = d.lit 0 0;
    qw = d.lit 1 0;
    yaw_rate = d.lit 0 0;
    type_mask = 0;
    coordinate_frame = 1;
    is_valid = false;
    new_data_received = false;
  }

-- FlightCommand of driver/command_input.h
pub data FlightCommand : Type 0 where
  takeoff land hover track : FlightCommand

-- FlightSignal of uav/flight_signal.h
pub data FlightSignal : Type 0 where
  altctl_ready offboard_ready arm_ready altitude_reached takeoff_timeout reference_finished
        touchdown timeout_local_position timeout_local_velocity timeout_imu timeout_fcu_state
        timeout_estimate estimate_unusable geofence velocity_xy velocity_z saturation_xy
        saturation_z :
      FlightSignal

-- FlightEffect of uav/flight_effect.h; the first field is the timestamp
pub data FlightEffect (F : Type 0) : Type 0 where
  flight_setpoint flight_attitude : F → FlightEffect F
  flight_arm_request : F → Bool → FlightEffect F
  flight_mode_request : F → String → FlightEffect F
  flight_nmpc_request : F → ℕ → ℕ → FlightEffect F
  flight_reference_activation flight_status flight_sensor_stats flight_events flight_tracking_error
        flight_sensor_debug :
      F → FlightEffect F
