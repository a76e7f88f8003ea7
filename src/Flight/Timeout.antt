-- ===== src/Flight/Timeout.antt =====
-- FlightRuntime::nextWake and entryDeadline: the wake-up for the timeout of a state.
use xgc2_multirotor_controll.Prelude.{
  ◌≡◌, Bool, true, false, ◌&&◌, ◌||◌, if◌then◌else◌, Option, none, some, List, ◌∷◌, Bool-cases, inl,
  inr, arith,
}
use xgc2_multirotor_controll.Prelude.Int.{ℤ, pos, ◌+ℤ◌, ◌-ℤ◌, ◌≤ℤ◌, ltb_ℤ, +ℤ_parts, -ℤ_parts}
use xgc2_multirotor_controll.Double.{Double}
use xgc2_multirotor_controll.Double.Order.{NumberLaws, lt_of_not_le}
use xgc2_multirotor_controll.Controller.{Controller}
use xgc2_multirotor_controll.Health.{health_next_wake}
use xgc2_multirotor_controll.Leaves.Ascending.{ascending_timeout_after_entry}
use xgc2_multirotor_controll.Leaves.Landing.{landing_timeout_after_entry}
use xgc2_multirotor_controll.Flight.Turn.{
  Leaf, takeoff_init, takeoff_offboard_request, takeoff_arm_request, takeoff_ascending, landing,
  Custom1, AdtMachine,
}
use xgc2_multirotor_controll.Flight.Debug.{debug_next_wake}
use xgc2_multirotor_controll.Flight.Runtime.{Runtime}
use xgc2_multirotor_controll.Flight.Wake.{entry_deadline, leaf_wakes}

module _ {F : Type 0} ⦃d : Double F⦄ where
  -- The elapsed time has passed a limit: strictly, or reached it.
  abbrev pub HasPassed : Bool → F → F → Type 0
  HasPassed true limit elapsed = d.lt limit elapsed ≡ true
  HasPassed false limit elapsed = d.le limit elapsed ≡ true

  -- What duration_cast does with a limit and with a time of the clock: readings keep the order of the
  -- counts, a limit lies below the count after the one it is cut to, and a nanosecond and a step after
  -- the reading of a count reach that count.
  pub record ClockLaws (limit : F) (target : ℤ) : Type 0 where
    pub number : d.le limit limit ≡ true
    pub ordered : (a b : ℤ) → a ≤ℤ b → d.le (d.of_clock a) (d.of_clock b) ≡ true
    pub cut : d.lt limit (d.of_clock (d.to_clock limit +ℤ pos 1)) ≡ true
    pub reached : target ≤ℤ d.to_clock (d.next_up (d.add (d.of_clock target) (d.of_clock (pos 1))))

  -- the count after the entry at which the limit has passed
  abbrev pub limit_count : F → Bool → ℤ
  limit_count limit strict =
      let delta = d.to_clock limit in
      let represented = d.of_clock delta in
      let equal = d.le represented limit && d.le limit represented in
      if d.lt represented limit || (strict && equal) then delta +ℤ pos 1 else delta

  reading_number :
      (limit : F) (target n : ℤ)
      → ClockLaws limit target
      → d.le (d.of_clock n) (d.of_clock n) ≡ true
  reading_number limit target n clock = clock.ordered n n (omega arith)

  count-HasPassed :
      (limit : F) (strict : Bool) (target : ℤ)
      → NumberLaws F
      → ClockLaws limit target
      → HasPassed strict limit (d.of_clock (limit_count limit strict))
  count-HasPassed limit true target laws clock =
      let represented = d.of_clock (d.to_clock limit) in
      let counted = reading_number limit target (d.to_clock limit) clock in
      elim (Bool-cases
        (d.lt represented limit || (d.le represented limit && d.le limit represented))) [
          | inl later ↦ rw later clock.cut
          | inr exact ↦
              let above =
                laws.total limit represented clock.number counted (ground (arith, exact)) in
              rw exact (
                lt_of_not_le laws limit represented clock.number counted
                  (ground (arith, exact, above)))
        ]
  count-HasPassed limit false target laws clock =
      let represented = d.of_clock (d.to_clock limit) in
      elim (Bool-cases (d.lt represented limit || false)) [
        | inl later ↦ rw later (laws.lt_le limit (d.of_clock (d.to_clock limit +ℤ pos 1)) clock.cut)
        | inr exact ↦ rw exact (
            laws.total limit represented clock.number
              (reading_number limit target (d.to_clock limit) clock) (ground (arith, exact)))
      ]

  passed-later :
      (strict : Bool) (limit a b : F)
      → NumberLaws F
      → HasPassed strict limit a
      → d.le a b ≡ true
      → HasPassed strict limit b
  passed-later true limit a b laws h k = laws.lt_le_trans limit a b h k
  passed-later false limit a b laws h k = laws.trans limit a b h k

  deadline_reached :
      (entered_at : ℤ) (limit : F) (strict : Bool)
      → ClockLaws limit (entered_at +ℤ limit_count limit strict)
      → entered_at +ℤ limit_count limit strict
        ≤ℤ d.to_clock (entry_deadline entered_at limit strict)
  unfolding entry_deadline
  deadline_reached entered_at limit strict clock =
      let target = entered_at +ℤ limit_count limit strict in
      elim (Bool-cases (ltb_ℤ (d.to_clock (d.of_clock target)) target)) [
        | inl short ↦ rw short clock.reached
        | inr long ↦ rw long (ground (arith, long))
      ]

  -- At the deadline of a timeout the limit has passed since the entry.
  pub deadline-HasPassed :
      (entered_at : ℤ) (limit : F) (strict : Bool)
      → NumberLaws F
      → ClockLaws limit (entered_at +ℤ limit_count limit strict)
      → HasPassed strict limit
          (d.of_clock (d.to_clock (entry_deadline entered_at limit strict) -ℤ entered_at))
  deadline-HasPassed entered_at limit strict laws clock =
      let count = limit_count limit strict in
      let due = d.to_clock (entry_deadline entered_at limit strict) in
      passed-later strict limit (d.of_clock count) (d.of_clock (due -ℤ entered_at)) laws
        (count-HasPassed limit strict (entered_at +ℤ count) laws clock)
        (clock.ordered count (due -ℤ entered_at) (
          omega (
            arith,
            deadline_reached entered_at limit strict clock,
            +ℤ_parts entered_at count,
            -ℤ_parts due entered_at,
          )))

  abbrev limit_by : Bool → Option F → Option (F × Bool)
  limit_by strict none = none
  limit_by strict (some limit) = some (limit, strict)

module _ {F C : Type 0} ⦃d : Double F⦄ where
  -- the limit of a state, and whether it has to be exceeded: ten seconds in the three states that wait
  -- for the flight controller, and what TakeoffAscending and Landing still watch for
  abbrev pub limit_of : Leaf F C → Option (F × Bool)
  limit_of (takeoff_init s) = some (d.lit 10 0, true)
  limit_of (takeoff_offboard_request s) = some (d.lit 10 0, true)
  limit_of (takeoff_arm_request s) = some (d.lit 10 0, true)
  limit_of (takeoff_ascending s) = limit_by true (ascending_timeout_after_entry s)
  limit_of (landing s) = limit_by false (landing_timeout_after_entry s)
  limit_of _ = none

  module _ (ops : Custom1 F C) where
    module _ {X : Type 0} (m : AdtMachine (Leaf F C) X) where
      -- what the health monitor, the debug monitor and the active state ask for
      abbrev pub deadlines : Runtime F X → List (Option F)
      deadlines rt =
          health_next_wake rt.health rt.controller.config
          ∷ some (debug_next_wake rt.debug rt.controller.current_time)
          ∷ leaf_wakes ops (m.entered_at rt.machine) (m.state rt.machine) rt.controller
