-- ===== src/Health/Trip.antt =====
-- HealthMonitorState: the trip of an unusable estimate, over all the ticks that the monitor has seen.
use mathlib.Core.Path.{subst}
use mathlib.Core.List.{append-nil}
use xgc2_multirotor_controll.Prelude.{
  ◌+◌, ◌∙◌, ◌≡◌, refl, ap, sym, Bool, true, false, not, Option, some, none, ◌&&◌, List, [], ◌∷◌,
  ◌++◌, All, if◌then◌else◌, arith, Bool-cases, Option-cases, inl, inr,
}
use xgc2_multirotor_controll.Double.{Double}
use xgc2_multirotor_controll.Types.{estimate_unusable, tracking_uses_fused_estimate}
use xgc2_multirotor_controll.SensorChecks.{
  is_control_state_active, is_control_state_usable_for_control,
}
use xgc2_multirotor_controll.Controller.{Controller, emit_flight_signal}
use xgc2_multirotor_controll.Health.{
  Health, initial_health, check_estimate, health_on_tick, check_streams, update_position_distance,
}
use xgc2_multirotor_controll.Health.Around.{
  once, trips, trips-emitted, OnlyOther, streams-Around, limits-Around,
}

-- The mark for no time lies before zero.
abbrev pub MarkIsNegative : (F : Type 0) ⦃d : Double F⦄ → Type 0
MarkIsNegative F ⦃d⦄ =
    (d.lt (d.neg (d.lit 1 0)) (d.lit 0 0) ≡ true) × (d.le (d.lit 0 0) (d.neg (d.lit 1 0)) ≡ false)

module _ {F : Type 0} ⦃d : Double F⦄ where
  open d use {lit, neg, sub, lt, le}

  -- the estimate is there and must not be used for control
  abbrev pub is_unusable : Controller F → Bool
  is_unusable c =
      tracking_uses_fused_estimate c.config.tracking_backend
      && is_control_state_active c.sensor
      && not (is_control_state_usable_for_control c.sensor)

  -- The start of a row of ticks that goes on at `now`, and whether it has lasted for a delay.
  unfoldable start_of : F → Option F → F
  start_of now none = now
  start_of now (some t) = t

  unfoldable has_lasted : F → F → Option F → Bool
  has_lasted delay now none = false
  has_lasted delay now (some t) = le delay (sub now t)

  -- The time of the first of the ticks in a row, up to the latest, at which it was unusable.
  unfoldable pub unusable_since : List (Controller F) → Option F
  unfolding start_of
  unusable_since [] = none
  unusable_since (c ∷ cs) =
      let rest = unusable_since cs in
      if is_unusable c then some (start_of c.current_time rest) else none

  -- The latest tick lies the trip delay of its configuration after that first one.
  unfoldable pub has_tripped : List (Controller F) → Bool
  unfolding has_lasted
  has_tripped [] = false
  has_tripped (c ∷ cs) =
      has_lasted c.config.state_estimate_unusable_trip_delay c.current_time
        (unusable_since (c ∷ cs))

  -- A clock reading that is not negative, as the monitor's mark for no time is.
  abbrev pub IsTime : Controller F → Type 0
  IsTime c = (lt c.current_time (lit 0 0) ≡ false) × (le (lit 0 0) c.current_time ≡ true)

  -- the monitor after ticks, the latest first
  unfoldable pub estimate_run : List (Controller F) → Health F
  estimate_run [] = initial_health
  estimate_run (c ∷ cs) = (health_on_tick (estimate_run cs) c).0

  abbrev Marks : F → Option F → Type 0
  Marks since none = since ≡ neg (lit 1 0)
  Marks since (some t) = (since ≡ t) × (lt since (lit 0 0) ≡ false) × (le (lit 0 0) since ≡ true)

  estimate_step :
      (h : Health F) (c : Controller F) (cs : List (Controller F))
      → MarkIsNegative F
      → IsTime c
      → Marks h.state_estimate_unusable_since (unusable_since cs)
      → Marks (check_estimate h c).0.state_estimate_unusable_since (unusable_since (c ∷ cs))
        × ((check_estimate h c).0.state_estimate_unusable ≡ has_tripped (c ∷ cs))
        × ((check_estimate h c).1.signals
            ≡ c.signals
              ++ (if not h.state_estimate_unusable && has_tripped (c ∷ cs)
                  then estimate_unusable ∷ []
                  else []))
  unfolding check_estimate unusable_since has_tripped emit_flight_signal start_of has_lasted
  estimate_step h c cs mark time since = elim (Bool-cases (is_unusable c)) [
    | inl bad ↦ elim (Option-cases (unusable_since cs)) [
      | inl quiet ↦
          let marked : h.state_estimate_unusable_since ≡ neg (lit 1 0) = rw quiet at since in
          rw quiet ground (arith, append-nil c.signals)
      | inr (t, from) ↦
          let marked : (h.state_estimate_unusable_since ≡ t)
              × (lt h.state_estimate_unusable_since (lit 0 0) ≡ false)
              × (le (lit 0 0) h.state_estimate_unusable_since ≡ true) =
            rw from at since in
          rw from ground (arith, append-nil c.signals)
    ]
    | inr fine ↦ ground (arith, append-nil c.signals)
  ]

  is_unusable_alike : (c c1 : Controller F) → OnlyOther c c1 → is_unusable c1 ≡ is_unusable c
  is_unusable_alike c c1 p = rw (p.sensor_kept, p.config_kept) refl

  since_alike :
      (c c1 : Controller F) (cs : List (Controller F))
      → OnlyOther c c1
      → unusable_since (c1 ∷ cs) ≡ unusable_since (c ∷ cs)
  unfolding unusable_since
  since_alike c c1 cs p = rw (is_unusable_alike c c1 p, p.time_kept) refl

  tripped_alike :
      (c c1 : Controller F) (cs : List (Controller F))
      → OnlyOther c c1
      → has_tripped (c1 ∷ cs) ≡ has_tripped (c ∷ cs)
  unfolding has_tripped
  tripped_alike c c1 cs p = rw (since_alike c c1 cs p, p.config_kept, p.time_kept) refl

  tick_step :
      (h : Health F) (c : Controller F) (cs : List (Controller F))
      → MarkIsNegative F
      → IsTime c
      → Marks h.state_estimate_unusable_since (unusable_since cs)
      → let after = health_on_tick h c in
        Marks after.0.state_estimate_unusable_since (unusable_since (c ∷ cs))
        × (after.0.state_estimate_unusable ≡ has_tripped (c ∷ cs))
        × (trips after.1.signals
            ≡ trips c.signals + (once (not h.state_estimate_unusable && has_tripped (c ∷ cs))))
  unfolding health_on_tick
  tick_step h c cs mark time since =
      let (h1, c1) = check_streams (update_position_distance c.sensor h) c in
      let (other, since1, trip1) = streams-Around h c in
      let same_since = since_alike c c1 cs other in
      let same_trip = tripped_alike c c1 cs other in
      let (h2, c2) = check_estimate h1 c1 in
      let (since2, trip2, emitted) =
        estimate_step h1 c1 cs mark (rw other.time_kept time) (rw since1 since) in
      let (other3, since3, trip3) = limits-Around h2 c2 in
      let tripped : trips c2.signals
          ≡ trips c1.signals + (once (not h1.state_estimate_unusable && has_tripped (c1 ∷ cs))) =
        trips-emitted _ c2.signals c1.signals emitted in
      let flag : (once (not h1.state_estimate_unusable && has_tripped (c1 ∷ cs)))
          ≡ (once (not h.state_estimate_unusable && has_tripped (c ∷ cs))) =
        ap (λ (b : Bool). once (not b && has_tripped (c1 ∷ cs))) trip1
        ∙ ap (λ (b : Bool). once (not h.state_estimate_unusable && b)) same_trip in
      (
        subst (λ x. Marks x (unusable_since (c ∷ cs))) (sym since3)
            (subst (λ o. Marks h2.state_estimate_unusable_since o) same_since since2),
        trip3 ∙ trip2 ∙ same_trip,
        omega (arith, other3.trips_kept, tripped, other.trips_kept, flag),
      )

  estimate_run-Marks :
      (cs : List (Controller F))
      → MarkIsNegative F
      → All IsTime cs
      → Marks (estimate_run cs).state_estimate_unusable_since (unusable_since cs)
        × ((estimate_run cs).state_estimate_unusable ≡ has_tripped cs)
  unfolding estimate_run unusable_since has_tripped
  estimate_run-Marks [] mark times = (refl, refl)
  estimate_run-Marks (c ∷ cs) mark (time, times) =
      let (since, tripped) = estimate_run-Marks cs mark times in
      let (since', tripped', emitted) = tick_step (estimate_run cs) c cs mark time since in
      (since', tripped')

  -- Over any ticks of the whole monitor whose times are not negative, where the mark for no time is: it
  -- holds the estimate for unusable exactly when the latest tick lies at least the trip delay after the
  -- first of the ticks in a row that found it unusable; and a further tick adds the signal
  -- estimate_unusable, once, exactly when this becomes so at it.
  pub estimate_trip_exact :
      (cs : List (Controller F)) (c : Controller F)
      → MarkIsNegative F
      → All IsTime (c ∷ cs)
      → ((estimate_run (c ∷ cs)).state_estimate_unusable ≡ has_tripped (c ∷ cs))
        × (trips (health_on_tick (estimate_run cs) c).1.signals
            ≡ trips c.signals + (once (not (has_tripped cs) && has_tripped (c ∷ cs))))
  unfolding estimate_run
  estimate_trip_exact cs c mark (time, times) =
      let (since, tripped) = estimate_run-Marks cs mark times in
      let (since', tripped', emitted) = tick_step (estimate_run cs) c cs mark time since in
      (tripped', rw tripped at emitted)
