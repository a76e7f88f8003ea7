-- ===== src/Flight/Preemption.antt =====
-- src/uav/flight_state.cpp: safety first. What each handler of FlightChoose does when a safety signal,
-- a Land command or an exceeded position distance is there, whatever else is.
use xgc2_multirotor_controll.Prelude.{
  ◌||◌, ◌≡◌, refl, Bool, true, false, none, some, List, [], ◌∷◌, arith, Bool-cases, Option-cases,
  inl, inr,
}
use xgc2_multirotor_controll.Double.{Double}
use xgc2_multirotor_controll.Types.{land, FlightSignal}
use xgc2_multirotor_controll.Leaves.Landing.{new_landing}
use xgc2_multirotor_controll.Flight.Turn.{
  Leaf, self_check, ready, takeoff_init, takeoff_offboard_request, takeoff_arm_request,
  takeoff_ascending, hovering, custom1, landing, Custom1, enter, Turn, Choice, has_command,
  has_signal,
}
use xgc2_multirotor_controll.Flight.Choose.{
  safety_order, first_present, normal_preemption, takeoff_preemption, choose_ready,
  choose_takeoff_init, choose_takeoff_offboard_request, choose_takeoff_arm_request,
  choose_takeoff_ascending, choose_hover, choose_custom1, choose, entering_by_signal,
  entering_by_command,
}

-- The states under the Normal parent: every one but SelfCheck and Landing.
abbrev pub is_normal : {F C : Type 0} → Leaf F C → Bool
is_normal (self_check _) = false
is_normal (landing _) = false
is_normal _ = true

-- Those that also heed the distance of the two poses: every one of them but Ready.
abbrev pub heeds_distance : {F C : Type 0} → Leaf F C → Bool
heeds_distance (self_check _) = false
heeds_distance (landing _) = false
heeds_distance ready = false
heeds_distance _ = true

-- one of a list of signals is present
abbrev pub any_present : List FlightSignal → List FlightSignal → Bool
any_present signals [] = false
any_present signals (s ∷ order) = has_signal signals s || any_present signals order

first_present-any :
    (signals order : List FlightSignal)
    → any_present signals order ≡ true
    → (s : FlightSignal) × (first_present signals order ≡ some s) × (has_signal signals s ≡ true)
unfolding first_present
first_present-any signals [] h = cc
first_present-any signals (s ∷ order) h = elim (Bool-cases (has_signal signals s)) [
  | inl there ↦ (s, rw there, there)
  | inr gone ↦
      let (s', found, there) = first_present-any signals order (rw gone at h) in
      (s', rw gone found, there)
]

module _ {F C : Type 0} ⦃d : Double F⦄ where
  normal_preemption-signal :
      (t : Turn F) (s : FlightSignal)
      → first_present t.controller.signals safety_order ≡ some s
      → normal_preemption t ≡ some (entering_by_signal {C = C} t s (landing new_landing))
  unfolding normal_preemption
  normal_preemption-signal t s found = rw (found, normal_preemption)

  pub normal_preemption-land :
      (t : Turn F)
      → has_command t.commands land ≡ true
      → (choice : Choice F C) × (normal_preemption t ≡ some choice)
        × (choice.outcome ≡ enter (landing new_landing))
  unfolding normal_preemption
  normal_preemption-land t h =
      elim (Option-cases (first_present t.controller.signals safety_order)) [
        | inl quiet ↦
            (entering_by_command (landing new_landing), rw (quiet, h, normal_preemption), refl)
        | inr (s, found) ↦
            (entering_by_signal t s (landing new_landing), normal_preemption-signal t s found, refl)
      ]

  pub normal_preemption_lands :
      (t : Turn F) {choice : Choice F C}
      → normal_preemption t ≡ some choice
      → choice.outcome ≡ enter (landing new_landing)
  unfolding normal_preemption
  normal_preemption_lands t h = ground arith

module _ {F C : Type 0} ⦃d : Double F⦄ (ops : Custom1 F C) where
  pub choose_preempted :
      (leaf : Leaf F C) (t : Turn F) (choice : Choice F C)
      → is_normal leaf ≡ true
      → normal_preemption t ≡ some choice
      → choose ops leaf t ≡ choice
  unfolding choose choose_ready choose_takeoff_init choose_takeoff_offboard_request
      choose_takeoff_arm_request choose_takeoff_ascending choose_hover choose_custom1
      takeoff_preemption
  choose_preempted (self_check s) t choice n h = cc
  choose_preempted ready t choice n h = rw h
  choose_preempted (takeoff_init s) t choice n h = rw (h, takeoff_preemption)
  choose_preempted (takeoff_offboard_request s) t choice n h = rw (h, takeoff_preemption)
  choose_preempted (takeoff_arm_request s) t choice n h = rw (h, takeoff_preemption)
  choose_preempted (takeoff_ascending s) t choice n h = rw (h, takeoff_preemption)
  choose_preempted (hovering s) t choice n h = rw h
  choose_preempted (custom1 s) t choice n h = rw h
  choose_preempted (landing s) t choice n h = cc

  -- In every state but SelfCheck and Landing, a turn with one of the eleven safety signals goes to
  -- Landing, whatever commands, other signals, sensor values and timeouts it has, and consumes the
  -- present signal that stands first in the safety order.
  pub safety_signal_lands :
      (leaf : Leaf F C) (t : Turn F)
      → is_normal leaf ≡ true
      → any_present t.controller.signals safety_order ≡ true
      → (s : FlightSignal) × (has_signal t.controller.signals s ≡ true)
        × (first_present t.controller.signals safety_order ≡ some s)
        × (choose ops leaf t ≡ entering_by_signal t s (landing new_landing))
  safety_signal_lands leaf t n h =
      let (s, found, there) = first_present-any t.controller.signals safety_order h in
      (
        s,
        there,
        found,
        choose_preempted leaf t (entering_by_signal t s (landing new_landing)) n
            (normal_preemption-signal t s found),
      )

  -- In every state but SelfCheck and Landing, a turn with a Land command goes to Landing, whatever else
  -- it has.
  pub land_command_lands :
      (leaf : Leaf F C) (t : Turn F)
      → is_normal leaf ≡ true
      → has_command t.commands land ≡ true
      → (choose ops leaf t).outcome ≡ enter (landing new_landing)
  land_command_lands leaf t n h =
      let (choice, e, lands) = normal_preemption-land t h in
      rw (choose_preempted leaf t choice n e) lands

  quiet_distance :
      (leaf : Leaf F C) (t : Turn F)
      → heeds_distance leaf ≡ true
      → normal_preemption {C = C} t ≡ none
      → t.distance.exceeded ≡ true
      → (choose ops leaf t).outcome ≡ enter (landing new_landing)
  unfolding choose choose_takeoff_init choose_takeoff_offboard_request choose_takeoff_arm_request
      choose_takeoff_ascending choose_hover choose_custom1 takeoff_preemption
  quiet_distance (self_check s) t n q h = cc
  quiet_distance ready t n q h = cc
  quiet_distance (takeoff_init s) t n q h = rw (q, takeoff_preemption, h)
  quiet_distance (takeoff_offboard_request s) t n q h = rw (q, takeoff_preemption, h)
  quiet_distance (takeoff_arm_request s) t n q h = rw (q, takeoff_preemption, h)
  quiet_distance (takeoff_ascending s) t n q h = rw (q, takeoff_preemption, h)
  quiet_distance (hovering s) t n q h = rw (q, h)
  quiet_distance (custom1 s) t n q h = rw (q, h)
  quiet_distance (landing s) t n q h = cc

  heeds-is_normal : (leaf : Leaf F C) → heeds_distance leaf ≡ true → is_normal leaf ≡ true
  heeds-is_normal leaf h = ground arith

  -- During a takeoff, in Hover and in Custom1, a turn in which the two poses are too far apart goes to
  -- Landing, whatever else it has.
  pub distance_exceeded_lands :
      (leaf : Leaf F C) (t : Turn F)
      → heeds_distance leaf ≡ true
      → t.distance.exceeded ≡ true
      → (choose ops leaf t).outcome ≡ enter (landing new_landing)
  distance_exceeded_lands leaf t n h = elim (Option-cases (normal_preemption {C = C} t)) [
    | inl quiet ↦ quiet_distance leaf t n quiet h
    | inr (choice, e) ↦
        rw (choose_preempted leaf t choice (heeds-is_normal leaf n) e) (normal_preemption_lands t e)
  ]
