-- ===== src/Leaves/Requests.antt =====
-- TakeoffOffboardRequest, TakeoffArmRequest and TakeoffInit: when the FCU counts as confirming.
use mathlib.Core.List.{append-nil}
use Prim.Native.Nat.{min}
use text.Mathlib.Text.{◌==◌ as str_eq}
use xgc2_multirotor_controll.Prelude.{
  ◌≡◌, refl, ap, ◌∙◌, Bool, true, not, ◌||◌, ◌&&◌, List, [], ◌∷◌, ◌++◌, map, leb, if◌then◌else◌,
  arith,
}
use xgc2_multirotor_controll.Double.{Double}
use xgc2_multirotor_controll.Clock.{Timer}
use xgc2_multirotor_controll.Types.{
  FlightSignal, FlightEffect, flight_mode_request, flight_arm_request, offboard_ready, arm_ready,
}
use xgc2_multirotor_controll.Controller.{Controller, emit_flight_effect, emit_flight_signal}
use xgc2_multirotor_controll.Leaves.Common.{publish_setpoint_if_due, publish_setpoint}
use xgc2_multirotor_controll.Leaves.Confirm.{
  Frame, frame_of, streak, reached, count_step, count_step-streak, count_step-reached,
  signal_when-count, signal_when_reached,
}
use xgc2_multirotor_controll.Leaves.Request.{
  Request, request_on_enter, offboard_on_tick, arm_on_tick, request_if_due, update_confirmation,
  post_ready_once,
}

module _ {F : Type 0} ⦃d : Double F⦄ where
  -- the frames of the OFFBOARD mode
  abbrev pub offboard_frame : Controller F → Frame
  offboard_frame c = frame_of c.sensor.state_stats.is_new (str_eq c.sensor.fcu_mode "OFFBOARD")

  -- the frames of the armed flag
  abbrev pub arm_frame : Controller F → Frame
  arm_frame c = frame_of c.sensor.state_stats.is_new c.sensor.fcu_armed

  pub publish-keeps :
      (timer : Timer F) (c : Controller F)
      → ((publish_setpoint_if_due timer c).1.signals ≡ c.signals)
        × ((publish_setpoint_if_due timer c).1.sensor ≡ c.sensor)
  unfolding publish_setpoint_if_due publish_setpoint emit_flight_effect
  publish-keeps timer c = ground arith

  request-keeps :
      (effect : FlightEffect F) (s : Request F) (c : Controller F)
      → let (s', c') = request_if_due effect s c in
        (s'.confirmed_frames ≡ s.confirmed_frames)
        × (s'.ready_event_posted ≡ s.ready_event_posted)
        × (c'.signals ≡ c.signals)
        × (c'.sensor ≡ c.sensor)
  unfolding request_if_due emit_flight_effect
  request-keeps effect s c = ground arith

  -- What a request state keeps after the frames `fs`.
  abbrev Counts : Request F → List Frame → Type 0
  Counts s fs = (s.confirmed_frames ≡ min (streak fs) 1) × (s.ready_event_posted ≡ reached 1 fs)

  confirm_step :
      (signal : FlightSignal) (holds : Bool) (s : Request F) (c : Controller F)
      → let (s', c') = post_ready_once signal (update_confirmation holds s c) c in
        let k = count_step 1 (frame_of c.sensor.state_stats.is_new holds) s.confirmed_frames in
        (s'.confirmed_frames ≡ k)
        × (s'.ready_event_posted ≡ (s.ready_event_posted || leb 1 k))
        × (c'.signals
            ≡ c.signals ++ (if leb 1 k && not s.ready_event_posted then signal ∷ [] else []))
  unfolding update_confirmation post_ready_once emit_flight_signal count_step
  confirm_step signal holds s c = ground (arith, append-nil c.signals)

  -- A tick's confirmation, after parts of it that leave the count, the post and the signals alone.
  request_tick :
      (signal : FlightSignal) (holds : Bool) (s : Request F) (c : Controller F) (f : Frame)
      (fs : List Frame) {signals : List FlightSignal}
      → frame_of c.sensor.state_stats.is_new holds ≡ f
      → Counts s fs
      → c.signals ≡ signals
      → let (s', c') = post_ready_once signal (update_confirmation holds s c) c in
        Counts s' (f ∷ fs) × (c'.signals ≡ signals ++ signal_when_reached 1 signal f fs)
  request_tick signal holds s c f fs frame (h, p) same =
      let (count, posted, emitted) = confirm_step signal holds s c in
      let streaks = count_step-streak 1 f fs s.confirmed_frames h in
      let reach = count_step-reached 1 f fs s.confirmed_frames (omega arith) h in
      let emits = signal_when-count 1 signal f fs s.confirmed_frames (omega arith) h in
      (
        (rw (count, frame) streaks, rw (posted, frame, p) reach),
        rw (emitted, frame, p, same, emits) refl,
      )

  offboard_step :
      (s : Request F) (c : Controller F) (fs : List Frame)
      → Counts s fs
      → Counts (offboard_on_tick s c).0 (offboard_frame c ∷ fs)
        × ((offboard_on_tick s c).1.signals
            ≡ c.signals ++ signal_when_reached 1 offboard_ready (offboard_frame c) fs)
  unfolding offboard_on_tick
  offboard_step s c fs (h, p) =
      let (timer, c1) = publish_setpoint_if_due s.setpoint_publish_timer c in
      let (signals, sensor) = publish-keeps s.setpoint_publish_timer c in
      let (count, posted, signals', sensor') =
        request-keeps (flight_mode_request c.current_time "OFFBOARD")
          (record s { setpoint_publish_timer = timer }) c1 in
      request_tick offboard_ready (str_eq c.sensor.fcu_mode "OFFBOARD") _ _ (offboard_frame c) fs
        (ap (λ x. frame_of x.state_stats.is_new (str_eq c.sensor.fcu_mode "OFFBOARD"))
          (sensor' ∙ sensor))
        (count ∙ h, posted ∙ p) (signals' ∙ signals)

  unfoldable pub offboard_run : Request F → List (Controller F) → Request F
  offboard_run s [] = s
  offboard_run s (c ∷ cs) = (offboard_on_tick (offboard_run s cs) c).0

  offboard_run-Counts :
      (s : Request F) (c₀ : Controller F) (cs : List (Controller F))
      → Counts (offboard_run (request_on_enter s c₀).0 cs) (map offboard_frame cs)
  unfolding offboard_run request_on_enter streak reached
  offboard_run-Counts s c₀ [] = ground arith
  offboard_run-Counts s c₀ (c ∷ cs) =
      (offboard_step (offboard_run (request_on_enter s c₀).0 cs) c (map offboard_frame cs)
        (offboard_run-Counts s c₀ cs)).0

  -- From its entry on, over any ticks, the state has posted its readiness exactly when some new frame of
  -- the FCU has named the OFFBOARD mode; and a tick emits the signal exactly when it is the first to bring such a frame.
  pub offboard_ready_exact :
      (s : Request F) (c₀ : Controller F) (cs : List (Controller F)) (c : Controller F)
      → let before = offboard_run (request_on_enter s c₀).0 cs in
        (before.ready_event_posted ≡ reached 1 (map offboard_frame cs))
        × ((offboard_on_tick before c).1.signals
            ≡ c.signals
              ++ signal_when_reached 1 offboard_ready (offboard_frame c) (map offboard_frame cs))
  offboard_ready_exact s c₀ cs c =
      let counts = offboard_run-Counts s c₀ cs in
      (
        counts.1,
        (offboard_step (offboard_run (request_on_enter s c₀).0 cs) c (map offboard_frame cs)
            counts).1,
      )

  arm_step :
      (s : Request F) (c : Controller F) (fs : List Frame)
      → Counts s fs
      → Counts (arm_on_tick s c).0 (arm_frame c ∷ fs)
        × ((arm_on_tick s c).1.signals
            ≡ c.signals ++ signal_when_reached 1 arm_ready (arm_frame c) fs)
  unfolding arm_on_tick
  arm_step s c fs (h, p) =
      let (timer, c1) = publish_setpoint_if_due s.setpoint_publish_timer c in
      let (signals, sensor) = publish-keeps s.setpoint_publish_timer c in
      let (count, posted, signals', sensor') =
        request-keeps (flight_arm_request c.current_time true)
          (record s { setpoint_publish_timer = timer }) c1 in
      request_tick arm_ready c.sensor.fcu_armed _ _ (arm_frame c) fs
        (ap (λ x. frame_of x.state_stats.is_new c.sensor.fcu_armed) (sensor' ∙ sensor))
        (count ∙ h, posted ∙ p) (signals' ∙ signals)

  unfoldable pub arm_run : Request F → List (Controller F) → Request F
  arm_run s [] = s
  arm_run s (c ∷ cs) = (arm_on_tick (arm_run s cs) c).0

  arm_run-Counts :
      (s : Request F) (c₀ : Controller F) (cs : List (Controller F))
      → Counts (arm_run (request_on_enter s c₀).0 cs) (map arm_frame cs)
  unfolding arm_run request_on_enter streak reached
  arm_run-Counts s c₀ [] = ground arith
  arm_run-Counts s c₀ (c ∷ cs) =
      (arm_step (arm_run (request_on_enter s c₀).0 cs) c (map arm_frame cs)
        (arm_run-Counts s c₀ cs)).0

  -- From its entry on, over any ticks, the state has posted its readiness exactly when some new frame of
  -- the FCU has said that it is armed; and a tick emits the signal exactly when it is the first to bring such a frame.
  pub arm_ready_exact :
      (s : Request F) (c₀ : Controller F) (cs : List (Controller F)) (c : Controller F)
      → let before = arm_run (request_on_enter s c₀).0 cs in
        (before.ready_event_posted ≡ reached 1 (map arm_frame cs))
        × ((arm_on_tick before c).1.signals
            ≡ c.signals ++ signal_when_reached 1 arm_ready (arm_frame c) (map arm_frame cs))
  arm_ready_exact s c₀ cs c =
      let counts = arm_run-Counts s c₀ cs in
      (counts.1, (arm_step (arm_run (request_on_enter s c₀).0 cs) c (map arm_frame cs) counts).1)
