-- ===== src/Leaves/Ascent.antt =====
-- TakeoffAscending: when it posts that the altitude is reached, and its timeout, over all the ticks
-- since its entry.
use mathlib.Core.List.{append-nil}
use Prim.Native.Nat.{min}
use xgc2_multirotor_controll.Prelude.{
  ◌≡◌, ◌⊎◌, refl, sym, ◌∙◌, Bool, true, false, not, ◌||◌, ◌&&◌, List, [], ◌∷◌, ◌++◌, leb,
  if◌then◌else◌, arith, Bool-cases, inl, inr,
}
use xgc2_multirotor_controll.Double.{Double}
use xgc2_multirotor_controll.Types.{altitude_reached, takeoff_timeout, FlightSignal}
use xgc2_multirotor_controll.SensorChecks.{is_world_pose_new}
use xgc2_multirotor_controll.Controller.{Controller, emit_flight_effect, emit_flight_signal}
use xgc2_multirotor_controll.Leaves.Common.{publish_setpoint, publish_setpoint_if_due}
use xgc2_multirotor_controll.Leaves.Confirm.{Frame, frame_of, streak, count_step, count_step-streak}
use xgc2_multirotor_controll.Leaves.Ascending.{
  Ascending, ascending_timeout, ascending_on_enter, ascending_on_tick, ascending_log_status,
  post_timeout_if_needed, is_settled, update_altitude_confirmation, post_altitude_reached_once,
}

module _ {F : Type 0} ⦃d : Double F⦄ where
  -- only a new pose counts
  abbrev pub altitude_frame : Controller F → Frame
  altitude_frame c = frame_of (is_world_pose_new c.sensor c.config.tracking_backend) (is_settled c)

  abbrev pub altitude_frames : List (F × Controller F) → List Frame
  altitude_frames [] = []
  altitude_frames ((elapsed, c) ∷ ticks) = altitude_frame c ∷ altitude_frames ticks

  -- Some tick came more than thirty seconds after the entry.
  unfoldable pub timed_out : List (F × Controller F) → Bool
  timed_out [] = false
  timed_out ((elapsed, c) ∷ ticks) = timed_out ticks || not (d.le elapsed ascending_timeout)

  -- At the end of some tick, five settled poses in a row were there, and no timeout before.
  unfoldable pub arrived : List (F × Controller F) → Bool
  arrived [] = false
  arrived (tick ∷ ticks) =
      arrived ticks
      || (not (timed_out (tick ∷ ticks)) && leb 5 (streak (altitude_frames (tick ∷ ticks))))

  -- the signals of a tick: a first timeout, a first arrival
  abbrev pub ascent_signals : F × Controller F → List (F × Controller F) → List FlightSignal
  ascent_signals tick ticks =
      (if not (timed_out ticks) && timed_out (tick ∷ ticks) then takeoff_timeout ∷ [] else [])
      ++ (if not (arrived ticks) && arrived (tick ∷ ticks) then altitude_reached ∷ [] else [])

  -- What the state keeps after ticks: the two posts, and until one of them the count.
  abbrev Counts : Ascending F → List (F × Controller F) → Type 0
  Counts s ticks =
      (s.timeout_event_posted ≡ timed_out ticks)
      × (s.altitude_reached_event_posted ≡ arrived ticks)
      × (s.timeout_event_posted ≡ false
          → s.altitude_reached_event_posted ≡ false
          → s.confirmed_settled_frames ≡ min (streak (altitude_frames ticks)) 5)

  publish-keeps :
      (s : Ascending F) (c : Controller F)
      → let (timer, c') = publish_setpoint_if_due s.setpoint_publish_timer c in
        (c'.signals ≡ c.signals)
        × (c'.sensor ≡ c.sensor)
        × (c'.config ≡ c.config)
        × (c'.setpoint ≡ c.setpoint)
  unfolding publish_setpoint_if_due publish_setpoint emit_flight_effect
  publish-keeps s c = ground arith

  log-keeps :
      (s : Ascending F) (c : Controller F)
      → ((ascending_log_status s c).timeout_event_posted ≡ s.timeout_event_posted)
        × ((ascending_log_status s c).altitude_reached_event_posted
            ≡ s.altitude_reached_event_posted)
        × ((ascending_log_status s c).confirmed_settled_frames ≡ s.confirmed_settled_frames)
  unfolding ascending_log_status
  log-keeps s c = ground arith

  confirmation_count :
      (s : Ascending F) (c : Controller F)
      → s.timeout_event_posted ≡ false
      → s.altitude_reached_event_posted ≡ false
      → ((update_altitude_confirmation s c).timeout_event_posted ≡ false)
        × ((update_altitude_confirmation s c).altitude_reached_event_posted ≡ false)
        × ((update_altitude_confirmation s c).confirmed_settled_frames
            ≡ count_step 5 (altitude_frame c) s.confirmed_settled_frames)
  unfolding update_altitude_confirmation count_step
  confirmation_count s c h k =
      elim (Bool-cases (is_world_pose_new c.sensor c.config.tracking_backend)) [
        | inl new ↦ rw (h, k, new) ground arith
        | inr old ↦ rw (h, k, old) ground arith
      ]

  confirmation_posted :
      (s : Ascending F) (c : Controller F)
      → s.altitude_reached_event_posted ≡ true
      → update_altitude_confirmation s c ≡ s
  unfolding update_altitude_confirmation
  confirmation_posted s c h = rw h refl

  post_exact :
      (s : Ascending F) (c : Controller F)
      → let (s', c') = post_altitude_reached_once s c in
        let posts = not s.altitude_reached_event_posted && leb 5 s.confirmed_settled_frames in
        (s'.altitude_reached_event_posted ≡ (s.altitude_reached_event_posted || posts))
        × (s'.timeout_event_posted ≡ s.timeout_event_posted)
        × (s'.confirmed_settled_frames ≡ s.confirmed_settled_frames)
        × (c'.signals ≡ c.signals ++ (if posts then altitude_reached ∷ [] else []))
  unfolding post_altitude_reached_once emit_flight_signal
  post_exact s c = ground (arith, append-nil c.signals)

  on_time :
      (elapsed : F) (s : Ascending F) (c : Controller F)
      → s.timeout_event_posted ≡ false
      → d.le elapsed ascending_timeout ≡ true
      → post_timeout_if_needed elapsed s c ≡ (s, c, false)
  unfolding post_timeout_if_needed
  on_time elapsed s c h k = rw (h, k) refl

  -- the part of a tick after the publishing and the log
  abbrev after_log : F → Ascending F → Controller F → Ascending F × Controller F
  after_log elapsed s c =
      let (s', c', late) = post_timeout_if_needed elapsed s c in
      if late then (s', c') else post_altitude_reached_once (update_altitude_confirmation s' c') c'

  time_step :
      (elapsed : F) (s : Ascending F) (c : Controller F) (ticks : List (F × Controller F))
      → Counts s ticks
      → d.le elapsed ascending_timeout ≡ true
      → s.timeout_event_posted ≡ false
      → let (s', c') = post_altitude_reached_once (update_altitude_confirmation s c) c in
        Counts s' ((elapsed, c) ∷ ticks)
        × (c'.signals ≡ c.signals ++ ascent_signals (elapsed, c) ticks)
  unfolding timed_out arrived
  time_step elapsed s c ticks (late, there, counted) still in_time =
      let (altitude', time', count', emitted) = post_exact (update_altitude_confirmation s c) c in
      elim (Bool-cases s.altitude_reached_event_posted) [
        | inl posted ↦
            let same = confirmation_posted s c posted in ground (arith, append-nil c.signals, same)
        | inr fresh ↦
            let (time, altitude, count) = confirmation_count s c in_time fresh in
            let streaks =
              count_step-streak 5 (altitude_frame c) (altitude_frames ticks)
                s.confirmed_settled_frames (counted in_time fresh) in
            ground (arith, append-nil c.signals)
      ]

  late_step :
      (elapsed : F) (s : Ascending F) (c : Controller F) (ticks : List (F × Controller F))
      → Counts s ticks
      → (s.timeout_event_posted ≡ true) ⊎ (d.le elapsed ascending_timeout ≡ false)
      → Counts (after_log elapsed s c).0 ((elapsed, c) ∷ ticks)
        × ((after_log elapsed s c).1.signals ≡ c.signals ++ ascent_signals (elapsed, c) ticks)
  unfolding post_timeout_if_needed timed_out arrived emit_flight_signal
  late_step elapsed s c ticks (late, there, counted) (inl before) =
      rw before ground (arith, append-nil c.signals)
  late_step elapsed s c ticks (late, there, counted) (inr now) =
      elim (Bool-cases s.timeout_event_posted) [
        | inl before ↦ rw before ground (arith, append-nil c.signals)
        | inr in_time ↦ rw (in_time, now) ground (arith, append-nil c.signals)
      ]

  tick_step :
      (elapsed : F) (s : Ascending F) (c : Controller F) (ticks : List (F × Controller F))
      → Counts s ticks
      → Counts (after_log elapsed s c).0 ((elapsed, c) ∷ ticks)
        × ((after_log elapsed s c).1.signals ≡ c.signals ++ ascent_signals (elapsed, c) ticks)
  tick_step elapsed s c ticks counts = elim (Bool-cases s.timeout_event_posted) [
    | inl before ↦ late_step elapsed s c ticks counts (inl before)
    | inr in_time ↦ elim (Bool-cases (d.le elapsed ascending_timeout)) [
      | inr now ↦ late_step elapsed s c ticks counts (inr now)
      | inl still ↦
          rw (on_time elapsed s c in_time still) (time_step elapsed s c ticks counts still in_time)
    ]
  ]

  same_frame :
      (c' c : Controller F)
      → c'.sensor ≡ c.sensor
      → c'.config ≡ c.config
      → c'.setpoint ≡ c.setpoint
      → altitude_frame c' ≡ altitude_frame c
  unfolding is_settled
  same_frame c' c s k p = rw (s, k, p) refl

  ascending_step :
      (elapsed : F) (s : Ascending F) (c : Controller F) (ticks : List (F × Controller F))
      → Counts s ticks
      → Counts (ascending_on_tick elapsed s c).0 ((elapsed, c) ∷ ticks)
        × ((ascending_on_tick elapsed s c).1.signals
            ≡ c.signals ++ ascent_signals (elapsed, c) ticks)
  unfolding ascending_on_tick timed_out arrived
  ascending_step elapsed s c ticks (late, there, counted) =
      let (timer, c1) = publish_setpoint_if_due s.setpoint_publish_timer c in
      let (signals, sensor, config, setpoint) = publish-keeps s c in
      let s0 = record s { setpoint_publish_timer = timer } in
      let (time, altitude, count) = log-keeps s0 c1 in
      let counts : Counts (ascending_log_status s0 c1) ticks =
        (time ∙ late, altitude ∙ there, λ h k. count ∙ counted (sym time ∙ h) (sym altitude ∙ k)) in
      let step = tick_step elapsed (ascending_log_status s0 c1) c1 ticks counts in
      rw (same_frame c1 c sensor config setpoint, signals) at step

  -- the ticks since the entry, the latest first, each with the time since the entry
  unfoldable pub ascending_run : Ascending F → List (F × Controller F) → Ascending F
  ascending_run s [] = s
  ascending_run s ((elapsed, c) ∷ ticks) = (ascending_on_tick elapsed (ascending_run s ticks) c).0

  ascending_run-Counts :
      (s : Ascending F) (c₀ : Controller F) (ticks : List (F × Controller F))
      → Counts (ascending_run (ascending_on_enter s c₀).0 ticks) ticks
  unfolding ascending_run ascending_on_enter timed_out arrived streak
  ascending_run-Counts s c₀ [] = ground arith
  ascending_run-Counts s c₀ ((elapsed, c) ∷ ticks) =
      (ascending_step elapsed (ascending_run (ascending_on_enter s c₀).0 ticks) c ticks
        (ascending_run-Counts s c₀ ticks)).0

  -- From its entry on, over any ticks, TakeoffAscending has posted its timeout exactly when some tick
  -- came more than thirty seconds after the entry, and the altitude exactly when, before any such tick,
  -- five new poses in a row were settled at the target altitude; and a tick emits each of the two
  -- signals exactly when this becomes so at it.
  pub ascent_exact :
      (s : Ascending F) (c₀ : Controller F) (ticks : List (F × Controller F)) (elapsed : F)
      (c : Controller F)
      → let before = ascending_run (ascending_on_enter s c₀).0 ticks in
        (before.timeout_event_posted ≡ timed_out ticks)
        × (before.altitude_reached_event_posted ≡ arrived ticks)
        × ((ascending_on_tick elapsed before c).1.signals
            ≡ c.signals ++ ascent_signals (elapsed, c) ticks)
  ascent_exact s c₀ ticks elapsed c =
      let counts = ascending_run-Counts s c₀ ticks in
      (
        counts.0,
        counts.1,
        (ascending_step elapsed (ascending_run (ascending_on_enter s c₀).0 ticks) c ticks counts).1,
      )
