-- ===== src/Strategies/Limits.antt =====
-- src/tracking/dfbc_attitude_rate_strategy.cpp: the limits of the commands that reach the autopilot.
use xgc2_multirotor_controll.Prelude.{
  none-Gives, Bool, if◌then◌else◌, ◌≡◌, inl, inr, refl, Bool-cases, true, false, not, none, some,
  ◌||◌, arith, Gives, Gives-some, chain-Gives, Option-cases, bind-Gives, some-Gives, test-Gives,
}
use xgc2_multirotor_controll.Double.{Double, fmax}
use xgc2_multirotor_controll.Types.{Config, SensorData, AttitudeRateTarget, dfbc}
use xgc2_multirotor_controll.Double.Order.{NumberLaws, ZeroLaws, lt_of_not_le}
use xgc2_multirotor_controll.Tracking.{TrackingStrategyInput, TrackingStrategyResult}
use xgc2_multirotor_controll.Strategies.Dfbc.{
  DfbcLaw, DfbcState, DfbcOutput, Se3State, clamp_scalar, map_specific_thrust, clamp_body_rate,
  target_of, dfbc_compute, dfbc_strategy_update, hover_thrust_ready, read_control_feedback,
}

module _ {F : Type 0} ⦃d : Double F⦄ where
  open d use {lit, neg, mul, div, lt, le, is_finite}

  -- a number between two bounds, both ends included
  abbrev pub Within : F → F → F → Type 0
  Within lo hi x = (le lo x ≡ true) × (le x hi ≡ true)

  clamp-Within :
      (laws : NumberLaws F) (x lo hi : F) → le lo hi ≡ true → Within lo hi (clamp_scalar x lo hi)
  unfolding clamp_scalar
  clamp-Within laws x lo hi h =
      let low = laws.le_left lo hi h in
      let high = laws.le_right lo hi h in
      elim (Bool-cases (lt hi x)) [
        | inl above ↦ elim (Bool-cases (lt lo hi)) [
          | inl apart ↦ rw (above, apart) (h, high)
          | inr same ↦ rw (above, same) (low, h)
        ]
        | inr below ↦ elim (Bool-cases (lt lo x)) [
          | inl inside ↦
              let over = laws.lt_le lo x inside in
              rw (below, inside) (over, laws.total x hi (laws.le_right lo x over) high below)
          | inr under ↦ rw (below, under) (low, h)
        ]
      ]

  -- max(0.0, x) is not negative, and is a number, also where x is NaN
  limit_positive :
      (laws : NumberLaws F) (zero : ZeroLaws F) (x : F) → le (lit 0 0) (fmax (lit 0 0) x) ≡ true
  limit_positive laws zero x = elim (Bool-cases (lt (lit 0 0) x)) [
    | inl above ↦ rw above (laws.lt_le (lit 0 0) x above)
    | inr below ↦ rw below zero.zero_number
  ]

  -- the limit of a rate, as a pair of bounds in order
  limits_ordered :
      (laws : NumberLaws F) (zero : ZeroLaws F) (x : F)
      → le (neg (fmax (lit 0 0) x)) (fmax (lit 0 0) x) ≡ true
  limits_ordered laws zero x =
      let limit = fmax (lit 0 0) x in
      let positive = limit_positive laws zero x in
      laws.trans (neg limit) (lit 0 0) limit (zero.neg_below limit positive) positive

  -- The target is one that the autopilot may be given: numbers within the configured limits.
  abbrev pub Limited : Config F → AttitudeRateTarget F → Type 0
  Limited config t =
      let rp = fmax (lit 0 0) config.max_roll_pitch_body_rate in
      let yaw = fmax (lit 0 0) config.max_yaw_body_rate in
      Within config.normalized_thrust_min config.normalized_thrust_max t.thrust
      × (lt (lit 0 0) t.thrust ≡ true)
      × Within (neg rp) rp t.body_rate.x
      × Within (neg rp) rp t.body_rate.y
      × Within (neg yaw) yaw t.body_rate.z
      × (config.enable_yaw_control ≡ false → t.body_rate.z ≡ lit 0 0)

  thrust-Within :
      (laws : NumberLaws F) (zero : ZeroLaws F) (config : Config F) (thrust hover : F)
      → le config.normalized_thrust_min config.normalized_thrust_max ≡ true
      → le (map_specific_thrust config thrust hover) (lit 0 0) ≡ false
      → Within config.normalized_thrust_min config.normalized_thrust_max
          (map_specific_thrust config thrust hover)
  unfolding map_specific_thrust
  thrust-Within laws zero config thrust hover h positive =
      elim (Bool-cases (
        not (is_finite thrust)
        || le config.gravity (lit 1 6)
        || not (is_finite hover)
        || lt hover config.min_hover_thrust
        || lt config.max_hover_thrust hover)) [
          | inl unusable ↦ ground (arith, zero.zero_number)
          | inr usable ↦ rw usable (
              clamp-Within laws (mul hover (div thrust config.gravity)) config.normalized_thrust_min
                config.normalized_thrust_max h)
        ]

  yaw-Within :
      (laws : NumberLaws F) (zero : ZeroLaws F) (rate limit : F) (enabled : Bool)
      → let yaw = fmax (lit 0 0) limit in
        Within (neg yaw) yaw (if enabled then clamp_scalar rate (neg yaw) yaw else lit 0 0)
  yaw-Within laws zero rate limit true =
      let yaw = fmax (lit 0 0) limit in
      clamp-Within laws rate (neg yaw) yaw (limits_ordered laws zero limit)
  yaw-Within laws zero rate limit false =
      let positive = limit_positive laws zero limit in
      (zero.neg_below (fmax (lit 0 0) limit) positive, positive)

  target_of-Limited :
      (laws : NumberLaws F) (zero : ZeroLaws F) (config : Config F) (sensor : SensorData F)
      (output : DfbcOutput F)
      → le config.normalized_thrust_min config.normalized_thrust_max ≡ true
      → Gives (Limited config) (target_of config sensor output)
  unfolding target_of clamp_body_rate
  target_of-Limited laws zero config sensor output h =
      let rp = fmax (lit 0 0) config.max_roll_pitch_body_rate in
      let rate = output.body_rate_command in
      let thrust = map_specific_thrust config output.specific_thrust sensor.hover_thrust_estimate in
      let bounds = limits_ordered laws zero config.max_roll_pitch_body_rate in
      let P = Limited config in
      test-Gives P (not (is_finite thrust) || le thrust (lit 0 0)) _ _ (λ refused. none-Gives P)
        (λ positive.
          let above : le thrust (lit 0 0) ≡ false = ground arith in
          let within =
            thrust-Within laws zero config output.specific_thrust sensor.hover_thrust_estimate h
              above in
          some-Gives P _ (
            within,
            lt_of_not_le laws (lit 0 0) thrust zero.zero_number
                (laws.le_right config.normalized_thrust_min thrust within.0) above,
            (clamp-Within laws rate.x (neg rp) rp bounds),
            (clamp-Within laws rate.y (neg rp) rp bounds),
            yaw-Within laws zero rate.z config.max_yaw_body_rate config.enable_yaw_control,
            λ disabled. rw disabled refl,
          ))

  module _ {G : Type 0} (law : DfbcLaw F G) where
    compute-Limited :
        (laws : NumberLaws F) (zero : ZeroLaws F) (current : Se3State F)
        (input : TrackingStrategyInput F) (s : DfbcState F G)
        → le s.config.normalized_thrust_min s.config.normalized_thrust_max ≡ true
        → Gives (λ r. Limited s.config r.attitude_rate_target) (dfbc_compute law current input s).1
    unfolding dfbc_compute
    compute-Limited laws zero current input s h =
        let P = λ (r : TrackingStrategyResult F). Limited s.config r.attitude_rate_target in
        bind-Gives P _ _ (λ output.
          chain-Gives (Limited s.config) P (target_of s.config input.sensor output) _
            (target_of-Limited laws zero s.config input.sensor output h)
            (λ target limited. some-Gives P _ limited))

    -- Whatever the geometric law computes, NaN included, an update of the DFBC strategy that succeeds
    -- gives an attitude-rate target of numbers within the configured limits: the normalized thrust is
    -- above zero and between its bounds, the roll and pitch rates and the yaw rate do not exceed their
    -- limits in either direction (a limit that is negative or NaN counts as zero), and the yaw rate is
    -- zero where yaw control is disabled. Needed are laws of the comparisons and of the negation, which
    -- hold for NaN too, and a lower thrust bound that is at most the upper one.
    pub dfbc_update-Limited :
        (input : TrackingStrategyInput F) (s : DfbcState F G) (r : TrackingStrategyResult F)
        → NumberLaws F
        → ZeroLaws F
        → le s.config.normalized_thrust_min s.config.normalized_thrust_max ≡ true
        → (dfbc_strategy_update law input s).1 ≡ some r
        → Limited s.config r.attitude_rate_target
    unfolding dfbc_strategy_update
    dfbc_update-Limited input s r laws zero h e =
        let P = λ (x : TrackingStrategyResult F). Limited s.config x.attitude_rate_target in
        elim (Bool-cases
          (not s.entered || not (hover_thrust_ready s.config input.sensor input.now))) [
            | inl refused ↦ Gives-some P none r (none-Gives P) (rw refused at e)
            | inr ready ↦ elim (Option-cases (read_control_feedback law input.sensor dfbc)) [
              | inl lost ↦ Gives-some P none r (none-Gives P) (rw (ready, lost) at e)
              | inr (current, read) ↦
                  Gives-some P _ r (compute-Limited laws zero current input s h)
                    (rw (ready, read) at e)
            ]
          ]
