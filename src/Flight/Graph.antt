-- ===== src/Flight/Graph.antt =====
-- src/uav/flight_state.cpp: the transition diagram of the flight states, with the data left out.
use xgc2_multirotor_controll.Prelude.{
  ℕ, ◌≡◌, Bool, true, false, Option, if◌then◌else◌, refl, Option-cases, Bool-cases, inl, inr,
}
use xgc2_multirotor_controll.Double.{Double}
use xgc2_multirotor_controll.Flight.Turn.{Leaf, Custom1, Outcome, Turn, Choice}
use mathlib.Core.Path.{subst}
use xgc2_multirotor_controll.Flight.Preemption.{normal_preemption_lands}
use xgc2_multirotor_controll.Flight.Choose.{
  unless_preempted, staying, normal_preemption, takeoff_preemption, choose_self_check, choose_ready,
  choose_takeoff_init, choose_takeoff_offboard_request, choose_takeoff_arm_request,
  choose_takeoff_ascending, choose_hover, choose_custom1, choose_landing, choose,
}

-- FlightState of common/types.h
pub data FlightState : Type 0 where
  self_check ready takeoff_init takeoff_offboard_request takeoff_arm_request takeoff_ascending hover
        landing custom1 :
      FlightState

-- FlightRuntime::flightState
abbrev pub flight_state : {F C : Type 0} → Leaf F C → FlightState
flight_state (Leaf.self_check _) = FlightState.self_check
flight_state Leaf.ready = FlightState.ready
flight_state (Leaf.takeoff_init _) = FlightState.takeoff_init
flight_state (Leaf.takeoff_offboard_request _) = FlightState.takeoff_offboard_request
flight_state (Leaf.takeoff_arm_request _) = FlightState.takeoff_arm_request
flight_state (Leaf.takeoff_ascending _) = FlightState.takeoff_ascending
flight_state (Leaf.hovering _) = FlightState.hover
flight_state (Leaf.custom1 _) = FlightState.custom1
flight_state (Leaf.landing _) = FlightState.landing

infix 40 ◌⟶◌
pub data ◌⟶◌ : FlightState → FlightState → Type 0 where
  checked : FlightState.self_check ⟶ FlightState.ready
  sensors_lost : FlightState.ready ⟶ FlightState.self_check
  take_off : FlightState.ready ⟶ FlightState.takeoff_init
  in_altctl : FlightState.takeoff_init ⟶ FlightState.takeoff_offboard_request
  in_offboard : FlightState.takeoff_offboard_request ⟶ FlightState.takeoff_arm_request
  armed : FlightState.takeoff_arm_request ⟶ FlightState.takeoff_ascending
  armed_early : FlightState.takeoff_init ⟶ FlightState.ready
  armed_before_request : FlightState.takeoff_offboard_request ⟶ FlightState.ready
  arrived : FlightState.takeoff_ascending ⟶ FlightState.hover
  track_from_ascent : FlightState.takeoff_ascending ⟶ FlightState.custom1
  track_from_hover : FlightState.hover ⟶ FlightState.custom1
  tracked : FlightState.custom1 ⟶ FlightState.hover
  touched_down : FlightState.landing ⟶ FlightState.self_check
  land_idle : FlightState.ready ⟶ FlightState.landing
  land_initializing : FlightState.takeoff_init ⟶ FlightState.landing
  land_offboard : FlightState.takeoff_offboard_request ⟶ FlightState.landing
  land_arm : FlightState.takeoff_arm_request ⟶ FlightState.landing
  land_ascending : FlightState.takeoff_ascending ⟶ FlightState.landing
  land_hover : FlightState.hover ⟶ FlightState.landing
  land_tracking : FlightState.custom1 ⟶ FlightState.landing

ruleset edges = (
  checked, sensors_lost, take_off, in_altctl, in_offboard, armed, armed_early, armed_before_request,
  arrived, track_from_ascent, track_from_hover, tracked, touched_down, land_idle, land_initializing,
  land_offboard, land_arm, land_ascending, land_hover, land_tracking,
)

abbrev FollowsOutcome : {F C : Type 0} → FlightState → Outcome F C → Type 0
FollowsOutcome s Outcome.stay = Unit
FollowsOutcome s (Outcome.enter next) = s ⟶ flight_state next

-- A choice that stays, or whose transition is an edge from `s`.
Follows : {F C : Type 0} → FlightState → Choice F C → Type 0
Follows s choice = FollowsOutcome s choice.outcome

module _ {F C : Type 0} where
  enter-Follows :
      {s : FlightState} (next : Leaf F C) (signal : Option ℕ) (command : Bool)
      → s ⟶ flight_state next
      → Follows s (record {
        outcome = Outcome.enter next;
        selected_signal = signal;
        selected_command = command;
      })
  unfolding Follows
  enter-Follows next signal command e = e

  if-Follows :
      (s : FlightState) (b : Bool) (x y : Choice F C)
      → Follows s x
      → Follows s y
      → Follows s (if b then x else y)
  if-Follows s true x y p q = p
  if-Follows s false x y p q = q

  outcome-Follows :
      (s : FlightState) (choice : Choice F C) → choice.outcome ≡ Outcome.stay → Follows s choice
  unfolding Follows
  outcome-Follows s choice h = rw h tt

  Follows-enter :
      (s : FlightState) (choice : Choice F C) {next : Leaf F C}
      → Follows s choice
      → choice.outcome ≡ Outcome.enter next
      → s ⟶ flight_state next
  unfolding Follows
  Follows-enter s choice p h = subst (λ o. FollowsOutcome s o) h p

staying-Follows :
    (F C : Type 0) ⦃d : Double F⦄ (s : FlightState) → Follows s (staying {F = F} {C = C})
staying-Follows F C s = outcome-Follows s staying refl

module _ {F C : Type 0} ⦃d : Double F⦄ where
  normal_preemption-Follows :
      {s : FlightState} (t : Turn F) (rest : Choice F C)
      → s ⟶ FlightState.landing
      → Follows s rest
      → Follows s (unless_preempted (normal_preemption t) rest)
  unfolding Follows
  normal_preemption-Follows t rest e p = elim (Option-cases (normal_preemption {C = C} t)) [
    | inl quiet ↦ rw quiet p
    | inr (choice, found) ↦ rw (found, normal_preemption_lands t found) e
  ]

  takeoff_preemption-Follows :
      {s : FlightState} (t : Turn F) (rest : Choice F C)
      → s ⟶ FlightState.landing
      → Follows s rest
      → Follows s (unless_preempted (takeoff_preemption t) rest)
  unfolding Follows takeoff_preemption
  takeoff_preemption-Follows t rest e p = elim (Option-cases (normal_preemption {C = C} t)) [
    | inl quiet ↦ elim (Bool-cases t.distance.exceeded) [
      | inl far ↦ rw (quiet, takeoff_preemption, far) e
      | inr near ↦ rw (quiet, takeoff_preemption, near) p
    ]
    | inr (choice, found) ↦ rw (found, takeoff_preemption, normal_preemption_lands t found) e
  ]

ruleset following = (
  enter-Follows, if-Follows, staying-Follows, normal_preemption-Follows, takeoff_preemption-Follows,
)

module _ {F C : Type 0} ⦃d : Double F⦄ (ops : Custom1 F C) where
  choose-Follows : (leaf : Leaf F C) (t : Turn F) → Follows (flight_state leaf) (choose ops leaf t)
  unfolding choose choose_self_check choose_ready choose_takeoff_init
      choose_takeoff_offboard_request choose_takeoff_arm_request choose_takeoff_ascending
      choose_hover choose_custom1 choose_landing
  choose-Follows (Leaf.self_check s) t = search (following, edges)
  choose-Follows Leaf.ready t = search (following, edges) depth 9
  choose-Follows (Leaf.takeoff_init s) t = search (following, edges) depth 9
  choose-Follows (Leaf.takeoff_offboard_request s) t = search (following, edges) depth 9
  choose-Follows (Leaf.takeoff_arm_request s) t = search (following, edges) depth 9
  choose-Follows (Leaf.takeoff_ascending s) t = search (following, edges) depth 9
  choose-Follows (Leaf.hovering s) t = search (following, edges) depth 9
  choose-Follows (Leaf.custom1 s) t = search (following, edges) depth 9
  choose-Follows (Leaf.landing s) t = search (following, edges)

  -- Whatever the turn, a transition that a flight state chooses is an edge of the diagram.
  pub choose-⟶ :
      (leaf : Leaf F C) (t : Turn F) (next : Leaf F C)
      → (choose ops leaf t).outcome ≡ Outcome.enter next
      → flight_state leaf ⟶ flight_state next
  choose-⟶ leaf t next h =
      Follows-enter (flight_state leaf) (choose ops leaf t) (choose-Follows leaf t) h
