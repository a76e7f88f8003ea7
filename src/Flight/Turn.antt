-- ===== src/Flight/Turn.antt =====
-- include/px4_multirotor_controller/uav/flight_state.h: the leaves of the flight machine, what a choice
-- reads and gives, and the interfaces of Custom1 and of the state holder.
use xgc2_multirotor_controll.Prelude.{
  ℕ, suc, ◌==◌, Bool, false, Option, List, [], ◌∷◌, if◌then◌else◌, ◌||◌, ◌≡◌,
}
use xgc2_multirotor_controll.Prelude.Int.{ℤ}
use xgc2_multirotor_controll.Types.{FlightCommand, takeoff, land, hover, track, FlightSignal}
use xgc2_multirotor_controll.Controller.{Controller, signal_id}
use xgc2_multirotor_controll.Health.{PositionDistance}
use xgc2_multirotor_controll.Leaves.Ground.{SelfCheck}
use xgc2_multirotor_controll.Leaves.Init.{TakeoffInit}
use xgc2_multirotor_controll.Leaves.Request.{Request}
use xgc2_multirotor_controll.Leaves.Ascending.{Ascending}
use xgc2_multirotor_controll.Leaves.Hover.{Hover}
use xgc2_multirotor_controll.Leaves.Landing.{Landing}

-- FlightSpec::State, over the data `C` of Custom1State
pub data Leaf (F C : Type 0) : Type 0 where
  self_check : SelfCheck F → Leaf F C
  ready : Leaf F C
  takeoff_init : TakeoffInit F → Leaf F C
  takeoff_offboard_request : Request F → Leaf F C
  takeoff_arm_request : Request F → Leaf F C
  takeoff_ascending : Ascending F → Leaf F C
  hovering : Hover F → Leaf F C
  custom1 : C → Leaf F C
  landing : Landing F → Leaf F C

-- What the runtime calls of Custom1State.
pub record Custom1 (F C : Type 0) : Type 0 where
  pub create : C
  pub on_enter : C → Controller F → C × Controller F
  pub on_tick : C → Controller F → C × Controller F
  pub on_exit : C → Controller F → C × Controller F
  pub next_wake : C → Controller F → Option F

-- The state holder: a state and the time at which it was entered. `put` is what a dispatched handler
-- leaves in the state; `apply` carries out an Enter.
pub record AdtMachine (S X : Type 0) : Type 0 where
  pub start : S → ℤ → X
  pub state : X → S
  pub entered_at : X → ℤ
  pub put : S → X → X
  pub apply : S → ℤ → X → X

pub record IsMachine {S X : Type 0} (m : AdtMachine S X) : Type 0 where
  pub state-start : (s : S) (t : ℤ) → m.state (m.start s t) ≡ s
  pub entered_at-start : (s : S) (t : ℤ) → m.entered_at (m.start s t) ≡ t
  pub state-put : (s : S) (x : X) → m.state (m.put s x) ≡ s
  pub entered_at-put : (s : S) (x : X) → m.entered_at (m.put s x) ≡ m.entered_at x
  pub state-apply : (s : S) (t : ℤ) (x : X) → m.state (m.apply s t x) ≡ s
  pub entered_at-apply : (s : S) (t : ℤ) (x : X) → m.entered_at (m.apply s t x) ≡ t

-- Enter or Stay
pub data Outcome (F C : Type 0) : Type 0 where
  stay : Outcome F C
  enter : Leaf F C → Outcome F C

-- What the handlers of FlightChoose read of the runtime.
pub record Turn (F : Type 0) : Type 0 where
  pub controller : Controller F
  pub commands : List FlightCommand
  pub distance : PositionDistance F
  pub elapsed : F

-- An outcome, with selected_signal_ and selected_command_ as the handler leaves them.
pub record Choice (F C : Type 0) : Type 0 where
  pub outcome : Outcome F C
  pub selected_signal : Option ℕ
  pub selected_command : Bool

-- The enumerators are compared by their numbers.
unfoldable pub command_id : FlightCommand → ℕ
command_id takeoff = 0
command_id land = 1
command_id hover = 2
command_id track = 3

unfoldable pub has_command : List FlightCommand → FlightCommand → Bool
has_command [] command = false
has_command (c ∷ cs) command = command_id c == command_id command || has_command cs command

unfoldable pub has_signal : List FlightSignal → FlightSignal → Bool
has_signal [] signal = false
has_signal (s ∷ ss) signal = signal_id s == signal_id signal || has_signal ss signal

-- the position of the first occurrence, or the length
unfoldable pub signal_index : List FlightSignal → FlightSignal → ℕ
signal_index [] signal = 0
signal_index (s ∷ ss) signal =
    if signal_id s == signal_id signal then 0 else suc (signal_index ss signal)
