-- ===== src/Health/Around.antt =====
-- HealthMonitorState: what the checks around that of the estimate leave alone.
use xgc2_multirotor_controll.Prelude.{
  ℕ, ◌+◌, ◌∙◌, ◌≡◌, refl, ap, Bool, true, false, not, ◌&&◌, List, [], ◌∷◌, ◌++◌, if◌then◌else◌,
  arith, Bool-cases, inl, inr,
}
use xgc2_multirotor_controll.Double.{Double}
use xgc2_multirotor_controll.Types.{
  timeout_estimate, timeout_imu, timeout_local_velocity, timeout_local_position, timeout_fcu_state,
  velocity_z, velocity_xy, geofence, SensorData, FlightSignal, TopicStats, estimate_unusable,
  tracking_uses_fused_estimate,
}
use xgc2_multirotor_controll.SensorChecks.{is_rigid, is_world_pose_new}
use xgc2_multirotor_controll.Controller.{Controller, emit_flight_signal}
use xgc2_multirotor_controll.Health.{
  Health, check_streams, check_limits, check_sensor_active_edge, update_position_distance,
}

abbrev pub once : Bool → ℕ
once true = 1
once false = 0

-- one for the signal estimate_unusable
unfoldable trip_of : FlightSignal → ℕ
trip_of estimate_unusable = 1
trip_of _ = 0

unfoldable pub trips : List FlightSignal → ℕ
unfolding trip_of
trips [] = 0
trips (x ∷ xs) = trip_of x + trips xs

pub trips-append : (xs ys : List FlightSignal) → trips (xs ++ ys) ≡ trips xs + trips ys
unfolding trips
trips-append [] ys = omega arith
trips-append (x ∷ xs) ys = omega (arith, trips-append xs ys)

pub trips-emitted :
    (b : Bool) (xs ys : List FlightSignal)
    → xs ≡ ys ++ (if b then estimate_unusable ∷ [] else [])
    → trips xs ≡ trips ys + (once (b))
unfolding trips
trips-emitted true xs ys e = ap trips e ∙ trips-append ys (estimate_unusable ∷ [])
trips-emitted false xs ys e = ap trips e ∙ trips-append ys []

module _ {F : Type 0} ⦃d : Double F⦄ where
  -- From `c` to `c1` the estimate is read alike, and no further trip is signalled.
  pub record OnlyOther (c c1 : Controller F) : Type 0 where
    pub sensor_kept : c1.sensor ≡ c.sensor
    pub config_kept : c1.config ≡ c.config
    pub time_kept : c1.current_time ≡ c.current_time
    pub trips_kept : trips c1.signals ≡ trips c.signals

  OnlyOther-refl : (c : Controller F) → OnlyOther c c
  OnlyOther-refl c = record {
    sensor_kept = refl;
    config_kept = refl;
    time_kept = refl;
    trips_kept = refl;
  }

  pub OnlyOther-trans : {c c1 c2 : Controller F} → OnlyOther c c1 → OnlyOther c1 c2 → OnlyOther c c2
  OnlyOther-trans p q = record {
    sensor_kept = q.sensor_kept ∙ p.sensor_kept;
    config_kept = q.config_kept ∙ p.config_kept;
    time_kept = q.time_kept ∙ p.time_kept;
    trips_kept = q.trips_kept ∙ p.trips_kept;
  }

  if-OnlyOther :
      (b : Bool) (c x y : Controller F)
      → OnlyOther c x
      → OnlyOther c y
      → OnlyOther c (if b then x else y)
  if-OnlyOther true c x y p q = p
  if-OnlyOther false c x y p q = q

  emit-OnlyOther :
      (signal : FlightSignal) (c : Controller F)
      → trip_of signal ≡ 0
      → OnlyOther c (emit_flight_signal signal c)
  unfolding emit_flight_signal trips
  emit-OnlyOther signal c other = record {
    sensor_kept = refl;
    config_kept = refl;
    time_kept = refl;
    trips_kept = omega (arith, other, trips-append c.signals (signal ∷ []));
  }

  edge-OnlyOther :
      (stats : TopicStats) (was_active : Bool) (signal : FlightSignal) (c : Controller F)
      → trip_of signal ≡ 0
      → OnlyOther c (check_sensor_active_edge stats was_active signal c)
  unfolding check_sensor_active_edge
  edge-OnlyOther stats was_active signal c other =
      if-OnlyOther (was_active && not stats.is_active) c _ c (emit-OnlyOther signal c other)
        (OnlyOther-refl c)

  edge-after :
      (stats : TopicStats) (was_active : Bool) (signal : FlightSignal) {c c1 : Controller F}
      → trip_of signal ≡ 0
      → OnlyOther c c1
      → OnlyOther c (check_sensor_active_edge stats was_active signal c1)
  edge-after stats was_active signal {c1 = c1} other p =
      OnlyOther-trans p (edge-OnlyOther stats was_active signal c1 other)

  emit-after :
      (b : Bool) (signal : FlightSignal) {c c1 : Controller F}
      → trip_of signal ≡ 0
      → OnlyOther c c1
      → OnlyOther c (if b then emit_flight_signal signal c1 else c1)
  emit-after b signal {c} {c1} other p =
      if-OnlyOther b c _ c1 (OnlyOther-trans p (emit-OnlyOther signal c1 other)) p

  -- The checks around that of the estimate keep what it reads and writes.
  abbrev pub Around : Health F → Controller F → Health F × Controller F → Type 0
  Around h c after =
      OnlyOther c after.1
      × (after.0.state_estimate_unusable_since ≡ h.state_estimate_unusable_since)
      × (after.0.state_estimate_unusable ≡ h.state_estimate_unusable)

  distance_kept :
      (sd : SensorData F) (h : Health F)
      → let h1 = update_position_distance sd h in
        (h1.state_estimate_unusable_since ≡ h.state_estimate_unusable_since)
        × (h1.state_estimate_unusable ≡ h.state_estimate_unusable)
  unfolding update_position_distance
  distance_kept sd h = ground arith

  pub streams-Around :
      (h : Health F) (c : Controller F)
      → Around h c (check_streams (update_position_distance c.sensor h) c)
  unfolding check_streams trip_of
  streams-Around h c =
      let h1 = update_position_distance c.sensor h in
      let sd = c.sensor in
      let fused = tracking_uses_fused_estimate c.config.tracking_backend in
      let rigid = is_rigid sd.feedback_source in
      let first =
        if-OnlyOther (fused && rigid) c _ c
          (edge-OnlyOther sd.estimate_stats h1.was_estimate_active timeout_estimate c refl)
          (OnlyOther-refl c) in
      let second =
        if-OnlyOther (fused && not rigid) c _ _
          (edge-after sd.imu_stats h1.was_imu_active timeout_imu refl (
            edge-after sd.local_velocity_stats h1.was_local_velocity_active timeout_local_velocity
              refl
              (edge-after sd.local_pos_stats h1.was_local_pos_active timeout_local_position refl
                first)))
          first in
      (
        edge-after sd.state_stats h1.was_state_active timeout_fcu_state refl second,
        (distance_kept c.sensor h).0,
        (distance_kept c.sensor h).1,
      )

  pub limits-Around : (h : Health F) (c : Controller F) → Around h c (check_limits h c)
  unfolding check_limits trip_of
  limits-Around h c = elim (Bool-cases (is_world_pose_new c.sensor c.config.tracking_backend)) [
    | inl fresh ↦ rw fresh (
      emit-after _ velocity_z refl
          (emit-after _ velocity_xy refl (emit-after _ geofence refl (OnlyOther-refl c))),
      refl,
      refl,
    )
    | inr old ↦ rw old (OnlyOther-refl c, refl, refl)
  ]
