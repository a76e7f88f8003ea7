-- ===== src/Flight/Shape.antt =====
-- The parts of one DroneController::update, named in the order in which the code runs them.
use xgc2_multirotor_controll.Prelude.{ℕ, []}
use xgc2_multirotor_controll.Double.{Double}
use xgc2_multirotor_controll.Flight.Turn.{Leaf, Custom1, AdtMachine, Choice}
use xgc2_multirotor_controll.Flight.Choose.{choose}
use xgc2_multirotor_controll.Flight.Runtime.{Runtime, before_choice, turn_of, carry_out}

module _ {F C X : Type 0} ⦃d : Double F⦄ (ops : Custom1 F C) (m : AdtMachine (Leaf F C) X) where
  -- the runtime as it enters the turn, after the health checks and the tick of the active leaf
  abbrev pub begun : F → Runtime F X → Runtime F X
  begun t rt = record rt { controller = record rt.controller { effects = []; current_time = t } }

  abbrev pub ticked : F → Runtime F X → Runtime F X
  ticked t rt = (before_choice ops m (begun t rt)).0

  -- where the signals of the leaf start
  abbrev pub leaf_signals : F → Runtime F X → ℕ
  leaf_signals t rt = (before_choice ops m (begun t rt)).1

  -- what the active leaf chooses, and the runtime after that choice
  abbrev pub chosen : F → Runtime F X → Choice F C
  chosen t rt = choose ops (m.state (ticked t rt).machine) (turn_of ops m (ticked t rt))

  abbrev pub moved : F → Runtime F X → Runtime F X
  moved t rt = (carry_out ops m (chosen t rt) (ticked t rt)).0
