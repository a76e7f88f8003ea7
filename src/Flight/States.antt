-- ===== src/Flight/States.antt =====
-- FlightRuntime::update: the states that a runtime goes through, turn by turn, and their entry times.
use xgc2_multirotor_controll.Prelude.{◌≡◌, ◌⊎◌, inl, inr, refl, sym, ◌∙◌, ap, List, [], ◌∷◌, arith}
use xgc2_multirotor_controll.Double.{Double}
use xgc2_multirotor_controll.Controller.{Controller}
use xgc2_multirotor_controll.Flight.Turn.{
  Leaf, Custom1, AdtMachine, IsMachine, Outcome, stay, enter, Choice,
}
use xgc2_multirotor_controll.Flight.Graph.{◌⟶◌, flight_state, choose-⟶, FlightState}
use xgc2_multirotor_controll.Flight.Runtime.{
  Runtime, before_choice, turn_of, carry_out, after_choice, flight_update, update, on_tick,
  on_enter,
}
use xgc2_multirotor_controll.Flight.Shape.{ticked, chosen, moved}

outcome_cases :
    {F C : Type 0} (outcome : Outcome F C)
    → (outcome ≡ stay) ⊎ ((next : Leaf F C) × (outcome ≡ enter next))
outcome_cases stay = inl refl
outcome_cases (enter next) = inr (next, refl)

module _ {F C : Type 0} ⦃d : Double F⦄ (ops : Custom1 F C) where
  on_tick-flight_state :
      (elapsed : F) (leaf : Leaf F C) (c : Controller F)
      → flight_state (on_tick ops elapsed leaf c).0 ≡ flight_state leaf
  unfolding on_tick
  on_tick-flight_state elapsed leaf c = ground arith

  on_enter-flight_state :
      (leaf : Leaf F C) (c : Controller F)
      → flight_state (on_enter ops leaf c).0 ≡ flight_state leaf
  unfolding on_enter
  on_enter-flight_state leaf c = ground arith

module _ {F C X : Type 0} ⦃d : Double F⦄ (ops : Custom1 F C) (m : AdtMachine (Leaf F C) X) where
  -- FlightRuntime::flightState of a runtime
  abbrev pub state_of : Runtime F X → FlightState
  state_of rt = flight_state (m.state rt.machine)

  module _ (laws : IsMachine m) where
    ticked-state :
        (t : F) (rt : Runtime F X)
        → (state_of (ticked ops m t rt) ≡ state_of rt)
          × (m.entered_at (ticked ops m t rt).machine ≡ m.entered_at rt.machine)
    unfolding before_choice
    ticked-state t rt = (
      ap (flight_state) (laws.state-put _ rt.machine) ∙ on_tick-flight_state ops _ _ _,
      laws.entered_at-put _ rt.machine,
    )

    update-machine :
        (t : F) (rt : Runtime F X) → (update ops m t rt).0.machine ≡ (moved ops m t rt).machine
    unfolding update flight_update after_choice
    update-machine t rt = refl

    carry_out-stay :
        (choice : Choice F C) (rt : Runtime F X)
        → choice.outcome ≡ stay
        → (carry_out ops m choice rt).0.machine ≡ rt.machine
    unfolding carry_out
    carry_out-stay choice rt h = rw h refl

    carry_out-enter :
        (choice : Choice F C) (rt : Runtime F X) (next : Leaf F C)
        → choice.outcome ≡ enter next
        → state_of (carry_out ops m choice rt).0 ≡ flight_state next
    unfolding carry_out
    carry_out-enter choice rt next h = rw h (
        ap (flight_state) (laws.state-put _ _)
        ∙ on_enter-flight_state ops _ _
        ∙ ap (flight_state) (laws.state-apply next _ _))

    -- One update either leaves the flight state and its entry time alone, when the active leaf chooses to
    -- stay; or ends in the flight state of the leaf that the active leaf chooses to enter, to which an
    -- edge of the diagram leads from the state before.
    pub update_state :
        (t : F) (rt : Runtime F X)
        → let after = (update ops m t rt).0 in
          ((chosen ops m t rt).outcome ≡ stay
            × (state_of after ≡ state_of rt)
            × (m.entered_at after.machine ≡ m.entered_at rt.machine))
          ⊎ ((next : Leaf F C) × ((chosen ops m t rt).outcome ≡ enter next)
              × (state_of after ≡ flight_state next)
              × (state_of rt ⟶ flight_state next))
    update_state t rt = elim (outcome_cases (chosen ops m t rt).outcome) [
      | inl stays ↦
          let kept = carry_out-stay (chosen ops m t rt) (ticked ops m t rt) stays in
          let (same, entered) = ticked-state t rt in
          inl (stays, rw (update-machine t rt, kept) same, rw (update-machine t rt, kept) entered)
      | inr (next, enters) ↦
          let arrived = carry_out-enter (chosen ops m t rt) (ticked ops m t rt) next enters in
          let edge =
            choose-⟶ ops (m.state (ticked ops m t rt).machine) (turn_of ops m (ticked ops m t rt))
              next enters in
          inr
            (next, enters, rw (update-machine t rt) arrived, rw (sym ((ticked-state t rt).0)) edge)
    ]

    -- The updates of a run, with anything between two updates that does not touch the state machine: new
    -- sensor data, results, references, posted commands. The list is the flight states after each update,
    -- the latest first.
    pub data UpdateRun : Runtime F X → List FlightState → Runtime F X → Type 0 where
      start : (rt : Runtime F X) → UpdateRun rt [] rt
      between :
          {rt : Runtime F X} {visited : List FlightState} {mid : Runtime F X}
          (changed : Runtime F X)
          → UpdateRun rt visited mid
          → changed.machine ≡ mid.machine
          → UpdateRun rt visited changed
      updated :
          {rt : Runtime F X} {visited : List FlightState} {mid : Runtime F X} (t : F)
          → UpdateRun rt visited mid
          → UpdateRun rt (state_of (update ops m t mid).0 ∷ visited) (update ops m t mid).0
