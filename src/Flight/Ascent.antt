-- ===== src/Flight/Ascent.antt =====
-- The takeoff sequence of src/uav/flight_state.cpp, over whole runs: no state in which the vehicle is
-- flown is reached but through the three states that request the mode, offboard control and arming.
use xgc2_multirotor_controll.Prelude.{
  ℕ, ◌≡◌, refl, Bool, true, false, List, [], ◌∷◌, arith, ◌&&◌, ◌||◌, ◌==◌, inl, inr,
}
use xgc2_multirotor_controll.Double.{Double}
use xgc2_multirotor_controll.Flight.Turn.{Leaf, Custom1, AdtMachine, IsMachine}
use xgc2_multirotor_controll.Flight.Graph.{
  ◌⟶◌, checked, sensors_lost, take_off, in_altctl, in_offboard, armed, armed_early,
  armed_before_request, arrived, track_from_ascent, track_from_hover, tracked, touched_down,
  land_idle, land_initializing, land_offboard, land_arm, land_ascending, land_hover, land_tracking,
  FlightState,
}
use xgc2_multirotor_controll.Flight.Runtime.{Runtime}
use xgc2_multirotor_controll.Flight.States.{
  state_of, UpdateRun, start, between, updated, update_state,
}

abbrev state_id : FlightState → ℕ
state_id FlightState.self_check = 0
state_id FlightState.ready = 1
state_id FlightState.takeoff_init = 2
state_id FlightState.takeoff_offboard_request = 3
state_id FlightState.takeoff_arm_request = 4
state_id FlightState.takeoff_ascending = 5
state_id FlightState.hover = 6
state_id FlightState.landing = 7
state_id FlightState.custom1 = 8

abbrev pub went_through : List FlightState → FlightState → Bool
went_through [] s = false
went_through (x ∷ xs) s = state_id x == state_id s || went_through xs s

-- The states of the takeoff that a run has to have gone through when it is in a state.
abbrev pub prepared : FlightState → List FlightState → Bool
prepared FlightState.takeoff_init v = went_through v FlightState.takeoff_init
prepared FlightState.takeoff_offboard_request v =
    went_through v FlightState.takeoff_init && went_through v FlightState.takeoff_offboard_request
prepared FlightState.self_check v = true
prepared FlightState.ready v = true
prepared FlightState.landing v = true
prepared _ v =
    went_through v FlightState.takeoff_init
    && went_through v FlightState.takeoff_offboard_request
    && went_through v FlightState.takeoff_arm_request

edge-prepared :
    {s s' : FlightState} (v : List FlightState)
    → s ⟶ s'
    → prepared s v ≡ true
    → prepared s' (s' ∷ v) ≡ true
edge-prepared v checked h = h
edge-prepared v sensors_lost h = h
edge-prepared v take_off h = refl
edge-prepared v in_altctl h = ground arith
edge-prepared v in_offboard h = ground arith
edge-prepared v armed h = ground arith
edge-prepared v armed_early h = refl
edge-prepared v armed_before_request h = refl
edge-prepared v arrived h = ground arith
edge-prepared v track_from_ascent h = ground arith
edge-prepared v track_from_hover h = ground arith
edge-prepared v tracked h = ground arith
edge-prepared v touched_down h = refl
edge-prepared v land_idle h = refl
edge-prepared v land_initializing h = refl
edge-prepared v land_offboard h = refl
edge-prepared v land_arm h = refl
edge-prepared v land_ascending h = refl
edge-prepared v land_hover h = refl
edge-prepared v land_tracking h = refl

stay-prepared :
    (s : FlightState) (v : List FlightState) → prepared s v ≡ true → prepared s (s ∷ v) ≡ true
stay-prepared s v h = ground arith

module _ {F C X : Type 0} ⦃d : Double F⦄ (ops : Custom1 F C) (m : AdtMachine (Leaf F C) X) where
  module _ (laws : IsMachine m) where
    -- A run that starts in a state which asks for no preparation, as SelfCheck of a new runtime, and is in
    -- TakeoffAscending, Hover or Custom1 at its end has gone through TakeoffInit, TakeoffOffboardRequest
    -- and TakeoffArmRequest; in TakeoffArmRequest it has too; and in TakeoffOffboardRequest it has gone
    -- through TakeoffInit.
    pub flown_after_arm_request :
        (rt : Runtime F X) (visited : List FlightState) (last : Runtime F X)
        → UpdateRun ops m laws rt visited last
        → prepared (state_of ops m rt) [] ≡ true
        → prepared (state_of ops m last) visited ≡ true
    flown_after_arm_request _ _ _ (start rt) h = h
    flown_after_arm_request rt _ _ (between {visited = v} {mid = mid} changed run same) h =
        rw same (flown_after_arm_request rt v mid run h)
    flown_after_arm_request rt _ _ (updated {visited = v} {mid = mid} t run) h =
        let before = flown_after_arm_request rt v mid run h in
        elim (update_state ops m laws t mid) [
          | inl (stays, same, entered) ↦ rw same (stay-prepared (state_of ops m mid) v before)
          | inr (next, enters, reached, edge) ↦ rw reached (edge-prepared v edge before)
        ]
