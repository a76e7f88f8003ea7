-- ===== src/Flight/Wake.antt =====
-- FlightRuntime::nextWake and FlightRuntime::entryDeadline: when the next turn is due if nothing comes
-- in. `leaf_wakes` lists what the visitor of nextWake adds, in its order.
use xgc2_multirotor_controll.Prelude.{
  ◌≡◌, inl, inr, Bool, true, false, Option, none, some, ◌&&◌, ◌||◌, List, [], ◌∷◌, All,
  if◌then◌else◌, Bool-cases,
}
use xgc2_multirotor_controll.Prelude.Int.{ℤ, pos, ltb_ℤ, ◌+ℤ◌}
use xgc2_multirotor_controll.Double.{Double}
use xgc2_multirotor_controll.Double.Order.{NumberLaws}
use xgc2_multirotor_controll.Clock.{earlier_deadline}
use xgc2_multirotor_controll.Controller.{Controller}
use xgc2_multirotor_controll.Health.{health_next_wake}
use xgc2_multirotor_controll.Leaves.Ground.{self_check_next_wake}
use xgc2_multirotor_controll.Leaves.Init.{init_next_wake}
use xgc2_multirotor_controll.Leaves.Request.{request_next_wake}
use xgc2_multirotor_controll.Leaves.Ascending.{ascending_next_wake, ascending_timeout_after_entry}
use xgc2_multirotor_controll.Leaves.Hover.{hover_next_wake}
use xgc2_multirotor_controll.Leaves.Landing.{landing_next_wake, landing_timeout_after_entry}
use xgc2_multirotor_controll.Flight.Turn.{
  Leaf, self_check, ready, takeoff_init, takeoff_offboard_request, takeoff_arm_request,
  takeoff_ascending, hovering, custom1, landing, Custom1, AdtMachine,
}
use xgc2_multirotor_controll.Flight.Debug.{debug_next_wake}
use xgc2_multirotor_controll.Flight.Runtime.{Runtime}

module _ {F : Type 0} ⦃d : Double F⦄ where
  -- `represented == seconds` is written with two comparisons
  unfoldable pub entry_deadline : ℤ → F → Bool → F
  entry_deadline entered_at seconds strict =
      let delta = d.to_clock seconds in
      let represented = d.of_clock delta in
      let equal = d.le represented seconds && d.le seconds represented in
      let later = d.lt represented seconds || (strict && equal) in
      let target = entered_at +ℤ (if later then delta +ℤ pos 1 else delta) in
      let due = d.of_clock target in
      if ltb_ℤ (d.to_clock due) target then d.next_up (d.add due (d.of_clock (pos 1))) else due

  abbrev pub after_entry : ℤ → Option F → Bool → Option F
  after_entry entered_at none strict = none
  after_entry entered_at (some timeout) strict = some (entry_deadline entered_at timeout strict)

  abbrev pub earliest_from : Option F → List (Option F) → Option F
  earliest_from due [] = due
  earliest_from due (x ∷ xs) = earliest_from (earlier_deadline due x) xs

  module _ {C : Type 0} (ops : Custom1 F C) where
    unfoldable pub leaf_wakes : ℤ → Leaf F C → Controller F → List (Option F)
    leaf_wakes t (self_check s) c = self_check_next_wake s ∷ []
    leaf_wakes t ready c = []
    leaf_wakes t (takeoff_init s) c = init_next_wake s ∷ after_entry t (some (d.lit 10 0)) true ∷ []
    leaf_wakes t (takeoff_offboard_request s) c =
        request_next_wake s ∷ after_entry t (some (d.lit 10 0)) true ∷ []
    leaf_wakes t (takeoff_arm_request s) c =
        request_next_wake s ∷ after_entry t (some (d.lit 10 0)) true ∷ []
    leaf_wakes t (takeoff_ascending s) c =
        ascending_next_wake s ∷ after_entry t (ascending_timeout_after_entry s) true ∷ []
    leaf_wakes t (hovering s) c = hover_next_wake s ∷ []
    leaf_wakes t (custom1 s) c = ops.next_wake s c ∷ []
    leaf_wakes t (landing s) c =
        landing_next_wake s ∷ after_entry t (landing_timeout_after_entry s) false ∷ []

    unfoldable pub flight_next_wake :
        {X : Type 0} → AdtMachine (Leaf F C) X → Runtime F X → Option F
    flight_next_wake m rt =
        earliest_from
          (earlier_deadline (health_next_wake rt.health rt.controller.config)
            (some (debug_next_wake rt.debug rt.controller.current_time)))
          (leaf_wakes (m.entered_at rt.machine) (m.state rt.machine) rt.controller)

module _ {F : Type 0} ⦃d : Double F⦄ where
  -- `due` is there and not after a deadline that is there.
  abbrev pub NotAfter : Option F → Option F → Type 0
  NotAfter (some due) (some x) = d.le due x ≡ true
  NotAfter none (some x) = true ≡ false
  NotAfter _ none = Unit

  -- a deadline that is absent or no NaN
  abbrev pub IsNumber : Option F → Type 0
  IsNumber none = Unit
  IsNumber (some x) = d.le x x ≡ true

  module _ (laws : NumberLaws F) where
    NotAfter-refl : (a : Option F) → IsNumber a → NotAfter a a
    NotAfter-refl none h = tt
    NotAfter-refl (some a) h = h

    NotAfter-none : (b : Option F) → NotAfter b none
    NotAfter-none b = tt

    NotAfter-trans : (a b c : Option F) → NotAfter a b → NotAfter b c → NotAfter a c
    NotAfter-trans a b none h k = tt
    NotAfter-trans (some a) (some b) (some c) h k = laws.trans a b c h k
    NotAfter-trans none (some b) (some c) h k = h
    NotAfter-trans a none (some c) h k = cc

    earlier-NotAfter :
        (a b : Option F)
        → IsNumber a
        → IsNumber b
        → IsNumber (earlier_deadline a b)
          × NotAfter (earlier_deadline a b) a
          × NotAfter (earlier_deadline a b) b
    unfolding earlier_deadline
    earlier-NotAfter none b h k = (k, NotAfter-none b, NotAfter-refl b k)
    earlier-NotAfter (some a) none h k = (h, h, tt)
    earlier-NotAfter (some a) (some b) h k = elim (Bool-cases (d.lt a b)) [
      | inl before ↦ rw before (h, h, laws.lt_le a b before)
      | inr after ↦ rw after (k, laws.total b a k h after, k)
    ]

    pub earliest-NotAfter :
        (due : Option F) (xs : List (Option F))
        → IsNumber due
        → All IsNumber xs
        → NotAfter (earliest_from due xs) due × All (NotAfter (earliest_from due xs)) xs
    earliest-NotAfter due [] h hs = (NotAfter-refl due h, tt)
    earliest-NotAfter due (x ∷ xs) h (k, ks) =
        let (number, left, right) = earlier-NotAfter due x h k in
        let (acc, rest) = earliest-NotAfter (earlier_deadline due x) xs number ks in
        let result = earliest_from (earlier_deadline due x) xs in
        (
          NotAfter-trans result (earlier_deadline due x) due acc left,
          (NotAfter-trans result (earlier_deadline due x) x acc right, rest),
        )
