-- ===== src/Tracking/Awake.antt =====
-- Custom1State::nextWake of src/uav/state_machine/custom1_state.cpp: a request in flight.
use mathlib.Core.Bool.{true≢false}
use mathlib.Core.Path.{subst}
use xgc2_multirotor_controll.Prelude.{
  ◌≡◌, refl, sym, ap, ◌∙◌, All, Bool-cases, inl, inr, true, false, Option, none, some, List, ◌∷◌,
  Gives, Gives-some, chain-Gives, bind-Gives, some-Gives, if-Gives,
}
use xgc2_multirotor_controll.Double.{Double}
use xgc2_multirotor_controll.Clock.{controller_strict_due_at}
use xgc2_multirotor_controll.Time.{stamp_of_sec, Stamp}
use xgc2_multirotor_controll.Types.{TrackingBackend, nmpc}
use xgc2_multirotor_controll.Cache.{FlagBits}
use xgc2_multirotor_controll.Controller.{Controller}
use xgc2_multirotor_controll.Double.Order.{NumberLaws}
use xgc2_multirotor_controll.Flight.Wake.{NotAfter, IsNumber, earliest_from, earliest-NotAfter}
use xgc2_multirotor_controll.Tracking.{Custom1State, Strategy}
use xgc2_multirotor_controll.Tracking.Wake.{
  pending_wake, stage_end_wake, nmpc_wakes, backend_wakes, custom1_wakes, custom1_next_wake,
}

module _ {F : Type 0} ⦃d : Double F⦄ where
  -- What the addition of zero and the step to the next double do at a finite deadline.
  pub record StepsOn (deadline : F) : Type 0 where
    pub kept : d.le deadline (d.add deadline (d.lit 0 0)) ≡ true
    pub stepped : d.lt (d.add deadline (d.lit 0 0)) (d.next_up (d.add deadline (d.lit 0 0))) ≡ true
    pub apart :
        d.le (d.sub (d.add deadline (d.lit 0 0)) deadline) (d.lit 0 0) ≡ false
        → d.lt deadline (d.add deadline (d.lit 0 0)) ≡ true

  strict_after :
      (deadline : F)
      → NumberLaws F
      → StepsOn deadline
      → d.lt deadline (controller_strict_due_at deadline (d.lit 0 0)) ≡ true
  unfolding controller_strict_due_at
  strict_after deadline laws steps =
      let due = d.add deadline (d.lit 0 0) in
      elim (Bool-cases (d.le (d.sub due deadline) (d.lit 0 0))) [
        | inl same ↦
            rw same (laws.le_lt_trans deadline due (d.next_up due) steps.kept steps.stepped)
        | inr later ↦ rw later (steps.apart later)
      ]

  present :
      (due : Option F) (x : F)
      → NotAfter due (some x)
      → (w : F) × (due ≡ some w) × (d.le w x ≡ true)
  present none x h = absurd (true≢false h)
  present (some w) x h = (w, refl, h)

module _ {F A B L : Type 0} ⦃d : Double F⦄ ⦃b : FlagBits⦄ (strategy : Strategy F A) where
  -- The first deadline of a list of wakes is that of the request in flight.
  abbrev deadline_of : Custom1State F A B L → F
  deadline_of s = controller_strict_due_at s.request_deadline (d.lit 0 0)

  abbrev Starts : Custom1State F A B L → List (Option F) → Type 0
  Starts s wakes = (rest : List (Option F)) × (wakes ≡ some (deadline_of s) ∷ rest)

  nmpc_wakes-Starts :
      (now : Stamp) (s : Custom1State F A B L) (c : Controller F)
      → s.request_in_flight ≡ true
      → Gives (Starts s) (nmpc_wakes now s c)
  unfolding nmpc_wakes
  nmpc_wakes-Starts now s c flying = rw flying (
      if-Gives (Starts s) _ _ _ (some-Gives (Starts s) _ (_, refl))
        (bind-Gives (Starts s) _ _ (λ due. some-Gives (Starts s) _ (_, refl))))

  backend_wakes-Starts :
      (k : TrackingBackend) (now : Stamp) (s : Custom1State F A B L) (c : Controller F)
      → k ≡ nmpc
      → s.request_in_flight ≡ true
      → Gives (Starts s) (backend_wakes strategy k now s c)
  unfolding backend_wakes
  backend_wakes-Starts k now s c e flying =
      subst (λ x. Gives (Starts s) (backend_wakes strategy x now s c)) (sym e)
        (nmpc_wakes-Starts now s c flying)

  -- Among the wakes is that of the request in flight.
  abbrev Holds : Custom1State F A B L → List (Option F) → Type 0
  Holds s wakes =
      (pending : Option F) × (stage_end : Option F) × (rest : List (Option F)) × (wakes
        ≡ pending ∷ stage_end ∷ some (deadline_of s) ∷ rest)

  wakes-Holds :
      (s : Custom1State F A B L) (c : Controller F)
      → c.config.tracking_backend ≡ nmpc
      → s.request_in_flight ≡ true
      → Gives (Holds s) (custom1_wakes strategy s c)
  unfolding custom1_wakes
  wakes-Holds s c backend flying =
      let Q = Holds s in
      bind-Gives Q (stamp_of_sec c.current_time) _ (λ now.
        bind-Gives Q (pending_wake c) _ (λ pending.
          bind-Gives Q (stage_end_wake now c) _ (λ stage_end.
            chain-Gives (Starts s) Q (backend_wakes strategy c.config.tracking_backend now s c) _
              (backend_wakes-Starts c.config.tracking_backend now s c backend flying)
              (λ wakes (rest, e).
                some-Gives Q _ (pending, stage_end, rest, ap (λ ws. pending ∷ stage_end ∷ ws) e)))))

  -- While a request to the solver is in flight, Custom1 in NMPC mode wakes the runtime up in time for
  -- its deadline: there is a wake-up, it is not after the instant that is computed for the deadline, and
  -- that instant is strictly after the deadline. The wakes must be computed and be no NaN; the deadline
  -- must be finite.
  pub wakes_for_deadline :
      (s : Custom1State F A B L) (c : Controller F) (wakes : List (Option F))
      → NumberLaws F
      → StepsOn s.request_deadline
      → c.config.tracking_backend ≡ nmpc
      → s.request_in_flight ≡ true
      → custom1_wakes strategy s c ≡ some wakes
      → All IsNumber wakes
      → let x = controller_strict_due_at s.request_deadline (d.lit 0 0) in
        (w : F) × (custom1_next_wake strategy s c ≡ some (some w))
        × (d.le w x ≡ true)
        × (d.lt s.request_deadline x ≡ true)
  unfolding custom1_next_wake
  wakes_for_deadline s c wakes laws steps backend flying computed numbers =
      let (pending, stage_end, rest, e) =
        Gives-some (Holds s) (custom1_wakes strategy s c) wakes (wakes-Holds s c backend flying)
          computed in
      let (_, (_, (_, (found, _)))) =
        earliest-NotAfter laws none (pending ∷ stage_end ∷ some (deadline_of s) ∷ rest) tt
          (subst (All IsNumber) e numbers) in
      let (w, at_w, before) =
        present (earliest_from none (pending ∷ stage_end ∷ some (deadline_of s) ∷ rest))
          (deadline_of s) found in
      (
        w,
        rw computed (ap some (ap (earliest_from none) e ∙ at_w)),
        before,
        strict_after s.request_deadline laws steps,
      )
