-- ===== src/Leaves/Touchdown.antt =====
-- The Landing state: when it posts the touchdown, over all the ticks since its entry.
use mathlib.Core.List.{append-nil}
use Prim.Native.Nat.{min}
use xgc2_multirotor_controll.Prelude.{
  ◌≡◌, refl, sym, ◌∙◌, Bool, false, not, ◌||◌, ◌&&◌, List, [], ◌∷◌, ◌++◌, map, leb, if◌then◌else◌,
  arith, Bool-cases, inl, inr,
}
use xgc2_multirotor_controll.Double.{Double}
use xgc2_multirotor_controll.Types.{touchdown, FlightSignal}
use xgc2_multirotor_controll.SensorChecks.{is_world_pose_new}
use xgc2_multirotor_controll.Controller.{Controller, emit_flight_effect, emit_flight_signal}
use xgc2_multirotor_controll.Leaves.Common.{publish_setpoint}
use xgc2_multirotor_controll.Leaves.Confirm.{
  Frame, unseen, refuted, confirmed, streak, count_step, count_step-streak,
}
use xgc2_multirotor_controll.Leaves.Landing.{
  Landing, landing_on_enter, landing_on_tick, update_descent_velocity, landing_publish_if_due,
  landing_log_status, report_timeout_if_needed, landing_feedback_active, is_landed,
  update_touchdown_confirmation, post_touchdown_once, emit_landing_setpoint,
}

module _ {F : Type 0} ⦃d : Double F⦄ where
  -- A pose that is not trusted counts against; of the others only a new one counts.
  abbrev pub landing_frame : Controller F → Frame
  landing_frame c =
      if landing_feedback_active c
      then (if is_world_pose_new c.sensor c.config.tracking_backend
          then (if is_landed c then confirmed else refuted)
          else unseen)
      else refuted

  -- The facts about the vehicle that a touchdown needs besides the frames.
  abbrev pub may_touch_down : Controller F → Bool
  may_touch_down c =
      landing_feedback_active c
      && c.sensor.state_stats.is_active
      && c.sensor.state_stats.is_new
      && c.sensor.fcu_connected
      && not c.sensor.fcu_armed

  -- At the latest tick, first in the list, all of it is there.
  abbrev pub touches_down : Controller F → List (Controller F) → Bool
  touches_down c cs = leb 5 (streak (landing_frame c ∷ map landing_frame cs)) && may_touch_down c

  -- It has been there at the end of some tick.
  unfoldable pub touched_down : List (Controller F) → Bool
  touched_down [] = false
  touched_down (c ∷ cs) = touches_down c cs || touched_down cs

  publish-keeps :
      (s : Landing F) (c : Controller F)
      → let (s', c') = landing_publish_if_due s c in
        (s'.touchdown_event_posted ≡ s.touchdown_event_posted)
        × (s'.confirmed_landed_frames ≡ s.confirmed_landed_frames)
        × (c'.signals ≡ c.signals)
        × (c'.sensor ≡ c.sensor)
        × (c'.config ≡ c.config)
  unfolding landing_publish_if_due emit_landing_setpoint publish_setpoint emit_flight_effect
  publish-keeps s c = ground arith

  descent-keeps :
      (s : Landing F) (c : Controller F)
      → ((update_descent_velocity s c).touchdown_event_posted ≡ s.touchdown_event_posted)
        × ((update_descent_velocity s c).confirmed_landed_frames ≡ s.confirmed_landed_frames)
  unfolding update_descent_velocity
  descent-keeps s c = ground arith

  reports-keep :
      (elapsed : F) (s : Landing F) (c : Controller F)
      → let s' = report_timeout_if_needed elapsed (landing_log_status s c) in
        (s'.touchdown_event_posted ≡ s.touchdown_event_posted)
        × (s'.confirmed_landed_frames ≡ s.confirmed_landed_frames)
  unfolding report_timeout_if_needed landing_log_status
  reports-keep elapsed s c = ground arith

  confirmation_count :
      (s : Landing F) (c : Controller F)
      → ((update_touchdown_confirmation s c).touchdown_event_posted ≡ s.touchdown_event_posted)
        × (s.touchdown_event_posted ≡ false
            → (update_touchdown_confirmation s c).confirmed_landed_frames
              ≡ count_step 5 (landing_frame c) s.confirmed_landed_frames)
  unfolding update_touchdown_confirmation count_step
  confirmation_count s c = elim (Bool-cases (landing_feedback_active c)) [
    | inl active ↦ elim (Bool-cases (is_world_pose_new c.sensor c.config.tracking_backend)) [
      | inl new ↦ rw (active, new) ground arith
      | inr old ↦ rw (active, old) ground arith
    ]
    | inr lost ↦ rw lost ground arith
  ]

  post_exact :
      (s : Landing F) (c : Controller F)
      → let (s', c') = post_touchdown_once s c in
        let posts =
          not s.touchdown_event_posted && leb 5 s.confirmed_landed_frames && may_touch_down c in
        (s'.touchdown_event_posted ≡ (s.touchdown_event_posted || posts))
        × (s'.confirmed_landed_frames ≡ s.confirmed_landed_frames)
        × (c'.signals ≡ c.signals ++ (if posts then touchdown ∷ [] else []))
  unfolding post_touchdown_once emit_flight_signal emit_flight_effect
  post_exact s c = ground (arith, append-nil c.signals)

  -- What the state keeps after ticks: the post, and until then the count.
  abbrev Counts : Landing F → List (Controller F) → Type 0
  Counts s cs =
      (s.touchdown_event_posted ≡ touched_down cs)
      × (s.touchdown_event_posted ≡ false
          → s.confirmed_landed_frames ≡ min (streak (map landing_frame cs)) 5)

  -- the signal of a tick: at the first touchdown
  abbrev pub touchdown_signal : Controller F → List (Controller F) → List FlightSignal
  touchdown_signal c cs = if not (touched_down cs) && touches_down c cs then touchdown ∷ [] else []

  tick_step :
      (s : Landing F) (c : Controller F) (cs : List (Controller F))
      → Counts s cs
      → let (s', c') = post_touchdown_once (update_touchdown_confirmation s c) c in
        Counts s' (c ∷ cs) × (c'.signals ≡ c.signals ++ touchdown_signal c cs)
  unfolding touched_down
  tick_step s c cs (posted, counted) =
      let (keeps, count) = confirmation_count s c in
      let (post, same, emitted) = post_exact (update_touchdown_confirmation s c) c in
      elim (Bool-cases s.touchdown_event_posted) [
        | inl before ↦ ground arith
        | inr fresh ↦
            let streaks =
              count_step-streak 5 (landing_frame c) (map landing_frame cs) s.confirmed_landed_frames
                (counted fresh) in
            ground arith
      ]

  same_sensors :
      (c' c : Controller F)
      → c'.sensor ≡ c.sensor
      → c'.config ≡ c.config
      → (landing_frame c' ≡ landing_frame c) × (may_touch_down c' ≡ may_touch_down c)
  unfolding landing_feedback_active is_landed
  same_sensors c' c s k = rw (s, k) (refl, refl)

  landing_step :
      (elapsed : F) (s : Landing F) (c : Controller F) (cs : List (Controller F))
      → Counts s cs
      → Counts (landing_on_tick elapsed s c).0 (c ∷ cs)
        × ((landing_on_tick elapsed s c).1.signals ≡ c.signals ++ touchdown_signal c cs)
  unfolding landing_on_tick touched_down
  landing_step elapsed s c cs (posted, counted) =
      let s0 = update_descent_velocity s c in
      let (s1, c1) = landing_publish_if_due s0 c in
      let s2 = report_timeout_if_needed elapsed (landing_log_status s1 c1) in
      let (posted0, count0) = descent-keeps s c in
      let (posted1, count1, signals, sensor, config) = publish-keeps s0 c in
      let (posted2, count2) = reports-keep elapsed s1 c1 in
      let (frame, may) = same_sensors c1 c sensor config in
      let kept = posted2 ∙ posted1 ∙ posted0 in
      let counts : Counts s2 cs =
        (kept ∙ posted, λ fresh. (count2 ∙ count1 ∙ count0) ∙ counted (sym kept ∙ fresh)) in
      let step = tick_step s2 c1 cs counts in rw (frame, may, signals) at step

  -- the ticks since the entry, the latest first, each with the time since the entry
  unfoldable pub landing_run : Landing F → List (F × Controller F) → Landing F
  landing_run s [] = s
  landing_run s ((elapsed, c) ∷ ticks) = (landing_on_tick elapsed (landing_run s ticks) c).0

  abbrev pub frames : List (F × Controller F) → List (Controller F)
  frames [] = []
  frames ((elapsed, c) ∷ ticks) = c ∷ frames ticks

  landing_run-Counts :
      (s : Landing F) (c₀ : Controller F) (ticks : List (F × Controller F))
      → Counts (landing_run (landing_on_enter s c₀).0 ticks) (frames ticks)
  unfolding landing_run landing_on_enter touched_down streak
  landing_run-Counts s c₀ [] = ground arith
  landing_run-Counts s c₀ ((elapsed, c) ∷ ticks) =
      (landing_step elapsed (landing_run (landing_on_enter s c₀).0 ticks) c (frames ticks)
        (landing_run-Counts s c₀ ticks)).0

  -- From its entry on, over any ticks, Landing has posted the touchdown exactly when at some tick five
  -- trusted new poses in a row were on the ground without vertical speed while the FCU's new state was
  -- active, connected and disarmed and the pose trusted; and a tick emits the signal exactly when it is
  -- the first such tick.
  pub touchdown_exact :
      (s : Landing F) (c₀ : Controller F) (ticks : List (F × Controller F)) (elapsed : F)
      (c : Controller F)
      → let before = landing_run (landing_on_enter s c₀).0 ticks in
        (before.touchdown_event_posted ≡ touched_down (frames ticks))
        × ((landing_on_tick elapsed before c).1.signals
            ≡ c.signals ++ touchdown_signal c (frames ticks))
  touchdown_exact s c₀ ticks elapsed c =
      let counts = landing_run-Counts s c₀ ticks in
      (
        counts.0,
        (landing_step elapsed (landing_run (landing_on_enter s c₀).0 ticks) c (frames ticks)
            counts).1,
      )
