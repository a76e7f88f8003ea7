-- ===== src/Leaves/Altctl.antt =====
-- TakeoffInit: when the FCU counts as being in the ALTCTL mode.
use mathlib.Core.List.{append-nil}
use Prim.Native.Nat.{min}
use text.Mathlib.Text.{◌==◌ as str_eq}
use xgc2_multirotor_controll.Prelude.{
  ◌≡◌, ◌≤◌, refl, ap, ◌∙◌, false, not, leb, ◌||◌, ◌&&◌, List, [], ◌∷◌, ◌++◌, map, if◌then◌else◌,
  arith,
}
use xgc2_multirotor_controll.Double.{Double}
use xgc2_multirotor_controll.Types.{altctl_ready, FlightSignal}
use xgc2_multirotor_controll.Controller.{Controller, emit_flight_effect, emit_flight_signal}
use xgc2_multirotor_controll.Leaves.Common.{publish_setpoint_if_due}
use xgc2_multirotor_controll.Leaves.Confirm.{
  Frame, frame_of, streak, reached, signal_when_reached, count_step, count_step-streak,
  count_step-reached, signal_when-count,
}
use xgc2_multirotor_controll.Leaves.Init.{
  TakeoffInit, init_on_enter, init_on_tick, request_altctl_mode_if_due, update_altctl_confirmation,
  post_altctl_ready_once,
}
use xgc2_multirotor_controll.Leaves.Requests.{publish-keeps}

module _ {F : Type 0} ⦃d : Double F⦄ where
  -- the frames of the ALTCTL mode
  abbrev pub altctl_frame : Controller F → Frame
  altctl_frame c = frame_of c.sensor.state_stats.is_new (str_eq c.sensor.fcu_mode "ALTCTL")

  request-keeps :
      (s : TakeoffInit F) (c : Controller F)
      → let (s', c') = request_altctl_mode_if_due s c in
        (s'.altctl_frame_count ≡ s.altctl_frame_count)
        × (s'.altctl_ready_event_posted ≡ s.altctl_ready_event_posted)
        × (s'.skip_altctl_gate ≡ s.skip_altctl_gate)
        × (c'.signals ≡ c.signals)
        × (c'.sensor ≡ c.sensor)
  unfolding request_altctl_mode_if_due emit_flight_effect
  request-keeps s c = ground arith

  -- What the state keeps after the frames `fs`.
  abbrev Counts : TakeoffInit F → List Frame → Type 0
  Counts s fs =
      (s.altctl_frame_count ≡ min (streak fs) 2)
      × (s.altctl_ready_event_posted ≡ reached 2 fs)
      × (s.skip_altctl_gate ≡ false)

  confirm_step :
      (s : TakeoffInit F) (c : Controller F)
      → s.altctl_frame_count ≤ 2
      → let (s', c') = post_altctl_ready_once (update_altctl_confirmation s c) c in
        let k = count_step 2 (altctl_frame c) s.altctl_frame_count in
        (s'.altctl_frame_count ≡ k)
        × (s'.altctl_ready_event_posted ≡ (s.altctl_ready_event_posted || leb 2 k))
        × (s'.skip_altctl_gate ≡ s.skip_altctl_gate)
        × (c'.signals
            ≡ c.signals
              ++ (if leb 2 k && not s.altctl_ready_event_posted then altctl_ready ∷ [] else []))
  unfolding update_altctl_confirmation post_altctl_ready_once emit_flight_signal count_step
  confirm_step s c h = ground (arith, append-nil c.signals)

  -- A tick's confirmation, after parts of it that leave the count, the post and the signals alone.
  altctl_tick :
      (s : TakeoffInit F) (c : Controller F) (f : Frame) (fs : List Frame)
      {signals : List FlightSignal}
      → altctl_frame c ≡ f
      → Counts s fs
      → c.signals ≡ signals
      → let (s', c') = post_altctl_ready_once (update_altctl_confirmation s c) c in
        Counts s' (f ∷ fs) × (c'.signals ≡ signals ++ signal_when_reached 2 altctl_ready f fs)
  altctl_tick s c f fs frame (h, p, gate) same =
      let (count, posted, kept, emitted) = confirm_step s c (omega arith) in
      let streaks = count_step-streak 2 f fs s.altctl_frame_count h in
      let reach = count_step-reached 2 f fs s.altctl_frame_count (omega arith) h in
      let emits = signal_when-count 2 altctl_ready f fs s.altctl_frame_count (omega arith) h in
      (
        (rw (count, frame) streaks, rw (posted, frame, p) reach, kept ∙ gate),
        rw (emitted, frame, p, same, emits) refl,
      )

  altctl_step :
      (s : TakeoffInit F) (c : Controller F) (fs : List Frame)
      → Counts s fs
      → Counts (init_on_tick s c).0 (altctl_frame c ∷ fs)
        × ((init_on_tick s c).1.signals
            ≡ c.signals ++ signal_when_reached 2 altctl_ready (altctl_frame c) fs)
  unfolding init_on_tick
  altctl_step s c fs (h, p, gate) =
      let (timer, c1) = publish_setpoint_if_due s.setpoint_publish_timer c in
      let (signals, sensor) = publish-keeps s.setpoint_publish_timer c in
      let s1 = record s { setpoint_publish_timer = timer } in
      let (count, posted, kept, signals', sensor') = request-keeps s1 c1 in
      let (s2, c2) = request_altctl_mode_if_due s1 c1 in
      let tick =
        altctl_tick s2 c2 (altctl_frame c) fs
          (ap (λ x. frame_of x.state_stats.is_new (str_eq x.fcu_mode "ALTCTL")) (sensor' ∙ sensor))
          (count ∙ h, posted ∙ p, kept ∙ gate) (signals' ∙ signals) in
      rw gate (rw gate at tick)

  unfoldable pub altctl_run : TakeoffInit F → List (Controller F) → TakeoffInit F
  altctl_run s [] = s
  altctl_run s (c ∷ cs) = (init_on_tick (altctl_run s cs) c).0

  altctl_run-Counts :
      (s : TakeoffInit F) (c₀ : Controller F) (cs : List (Controller F))
      → c₀.config.skip_takeoff_init_disarm ≡ false
      → Counts (altctl_run (init_on_enter s c₀).0 cs) (map altctl_frame cs)
  unfolding altctl_run init_on_enter streak reached
  altctl_run-Counts s c₀ [] skip = ground arith
  altctl_run-Counts s c₀ (c ∷ cs) skip =
      (altctl_step (altctl_run (init_on_enter s c₀).0 cs) c (map altctl_frame cs)
        (altctl_run-Counts s c₀ cs skip)).0

  -- Entered with a configuration that does not skip the gate, over any ticks, TakeoffInit has posted its
  -- readiness exactly when two new frames of the FCU in a row have named the ALTCTL mode; and a tick
  -- emits the signal exactly when it is the first to complete such a pair.
  pub altctl_ready_exact :
      (s : TakeoffInit F) (c₀ : Controller F) (cs : List (Controller F)) (c : Controller F)
      → c₀.config.skip_takeoff_init_disarm ≡ false
      → let before = altctl_run (init_on_enter s c₀).0 cs in
        (before.altctl_ready_event_posted ≡ reached 2 (map altctl_frame cs))
        × ((init_on_tick before c).1.signals
            ≡ c.signals
              ++ signal_when_reached 2 altctl_ready (altctl_frame c) (map altctl_frame cs))
  altctl_ready_exact s c₀ cs c skip =
      let counts = altctl_run-Counts s c₀ cs skip in
      (
        counts.1,
        (altctl_step (altctl_run (init_on_enter s c₀).0 cs) c (map altctl_frame cs) counts).1,
      )
