-- ===== src/Flight/Commands.antt =====
-- FlightRuntime::postCommand, and the batch of commands that FlightRuntime::update takes: a bounded
-- queue, first in, first out.
use xgc2_multirotor_controll.Prelude.{
  ℕ, zero, suc, ◌≡◌, ◌≤◌, refl, sym, ap, ◌∙◌, true, false, List, [], ◌∷◌, ◌++◌, length, take, drop,
  length-append, take-append-drop, length-take, length-drop, inl, inr, arith, ◌⊎◌, ◌↔◌,
}
use mathlib.Core.List.{append_assoc, append-nil}
use xgc2_multirotor_controll.Double.{Double}
use xgc2_multirotor_controll.Types.{FlightCommand}
use xgc2_multirotor_controll.Flight.Turn.{Leaf, Custom1, AdtMachine, Choice}
use xgc2_multirotor_controll.Flight.Runtime.{
  Runtime, post_command, batch_limit, pending_capacity, before_choice, carry_out, after_choice,
  flight_update, update,
}
use xgc2_multirotor_controll.Flight.Shape.{ticked, chosen}

module _ {F X : Type 0} where
  post_accepted :
      (command : FlightCommand) (rt : Runtime F X)
      → (post_command command rt).1 ≡ true
      → (post_command command rt).0.pending_commands ≡ rt.pending_commands ++ (command ∷ [])
  unfolding post_command
  post_accepted command rt h = ground arith

  post_refused :
      (command : FlightCommand) (rt : Runtime F X)
      → (post_command command rt).1 ≡ false
      → (post_command command rt).0.pending_commands ≡ rt.pending_commands
  unfolding post_command
  post_refused command rt h = ground arith

take_or_empty : {A : Type 0} (n : ℕ) (xs : List A) → length (take n xs) ≡ n ⊎ drop n xs ≡ []
take_or_empty zero xs = inl refl
take_or_empty (suc n) [] = inr refl
take_or_empty (suc n) (x ∷ xs) = ground (arith, take_or_empty n xs)

module _ {F C X : Type 0} ⦃d : Double F⦄ (ops : Custom1 F C) (m : AdtMachine (Leaf F C) X) where
  carry_out-pending :
      (choice : Choice F C) (rt : Runtime F X)
      → (((carry_out ops m choice rt).0).commands ≡ rt.commands)
        × (((carry_out ops m choice rt).0).pending_commands ≡ rt.pending_commands)
  unfolding carry_out
  carry_out-pending choice rt = ground arith

  update-batch :
      (t : F) (rt : Runtime F X)
      → (((update ops m t rt).0).commands ≡ take batch_limit rt.pending_commands)
        × (((update ops m t rt).0).pending_commands ≡ drop batch_limit rt.pending_commands)
  unfolding update flight_update before_choice after_choice
  update-batch t rt = carry_out-pending (chosen ops m t rt) (ticked ops m t rt)

  -- One update takes from the front of the waiting commands: those it handles, followed by those that
  -- still wait, are the commands that waited before, in order; at most 64 are handled; and a command
  -- still waits only when 64 were handled.
  pub update_batch_fifo :
      (t : F) (rt : Runtime F X)
      → let after = (update ops m t rt).0 in
        (after.commands ++ after.pending_commands ≡ rt.pending_commands)
        × (length after.commands ≤ batch_limit)
        × (length after.commands ≡ batch_limit ⊎ after.pending_commands ≡ [])
  update_batch_fifo t rt =
      let (handled, waiting) = update-batch t rt in
      rw (handled, waiting)
        (
          take-append-drop batch_limit rt.pending_commands,
          omega (arith, length-take batch_limit rt.pending_commands),
          take_or_empty batch_limit rt.pending_commands,
        )

  -- The updates and the posts of a run, in the order in which the lock lets them through: the commands
  -- that post_command accepted, and those that updates handled, oldest first.
  pub data CommandRun
      : Runtime F X → List FlightCommand → List FlightCommand → Runtime F X → Type 0 where
    start : (rt : Runtime F X) → CommandRun rt [] [] rt
    accepted :
        {rt : Runtime F X} {posted handled : List FlightCommand} {mid : Runtime F X}
        (command : FlightCommand)
        → CommandRun rt posted handled mid
        → (post_command command mid).1 ≡ true
        → CommandRun rt (posted ++ (command ∷ [])) handled (post_command command mid).0
    refused :
        {rt : Runtime F X} {posted handled : List FlightCommand} {mid : Runtime F X}
        (command : FlightCommand)
        → CommandRun rt posted handled mid
        → (post_command command mid).1 ≡ false
        → CommandRun rt posted handled (post_command command mid).0
    updated :
        {rt : Runtime F X} {posted handled : List FlightCommand} {mid : Runtime F X} (t : F)
        → CommandRun rt posted handled mid
        → CommandRun rt posted (handled ++ (update ops m t mid).0.commands) (update ops m t mid).0

  -- No accepted command is lost, duplicated or reordered, over a run of posts and updates: the commands
  -- handled, followed by those that wait, are those that waited at the start followed by those accepted.
  pub commands_fifo :
      (rt : Runtime F X) (posted handled : List FlightCommand) (last : Runtime F X)
      → CommandRun rt posted handled last
      → handled ++ last.pending_commands ≡ rt.pending_commands ++ posted
  commands_fifo _ _ _ _ (start rt) = sym (append-nil rt.pending_commands)
  commands_fifo rt _ _ _ (accepted {posted = p} {handled = h} {mid = mid} command run ok) =
      rw (post_accepted command mid ok) (
        sym (append_assoc h mid.pending_commands (command ∷ []))
        ∙ ap (◌++ (command ∷ [])) (commands_fifo rt p h mid run)
        ∙ append_assoc rt.pending_commands p (command ∷ []))
  commands_fifo rt _ _ _ (refused {posted = p} {handled = h} {mid = mid} command run full) =
      rw (post_refused command mid full) (commands_fifo rt p h mid run)
  commands_fifo rt _ _ _ (updated {posted = p} {handled = h} {mid = mid} t run) =
      append_assoc h _ _ ∙ ap (h ++◌) ((update_batch_fifo t mid).0) ∙ commands_fifo rt p h mid run

  bounded :
      (rt : Runtime F X) (posted handled : List FlightCommand) (last : Runtime F X)
      → CommandRun rt posted handled last
      → length rt.pending_commands ≤ pending_capacity
      → length last.pending_commands ≤ pending_capacity
  unfolding post_command
  bounded _ _ _ _ (start rt) h = h
  bounded rt _ _ _ (accepted {posted = p} {handled = q} {mid = mid} command run ok) h =
      ground (arith, bounded rt p q mid run h, length-append mid.pending_commands (command ∷ []))
  bounded rt _ _ _ (refused {posted = p} {handled = q} {mid = mid} command run full) h =
      rw (post_refused command mid full) (bounded rt p q mid run h)
  bounded rt _ _ _ (updated {posted = p} {handled = q} {mid = mid} t run) h =
      rw ((update-batch t mid).1) omega
        (arith, bounded rt p q mid run h, length-drop batch_limit mid.pending_commands)

  -- From a queue of at most 4096 commands, no run of posts and updates makes it longer, and a command is
  -- refused exactly when 4096 commands wait.
  pub commands_bounded :
      (rt : Runtime F X) (posted handled : List FlightCommand) (last : Runtime F X)
      → CommandRun rt posted handled last
      → length rt.pending_commands ≤ pending_capacity
      → (command : FlightCommand)
      → (length last.pending_commands ≤ pending_capacity)
        × ((post_command command last).1 ≡ false ↔ length last.pending_commands ≡ pending_capacity)
  unfolding post_command
  commands_bounded rt posted handled last run h command =
      let b = bounded rt posted handled last run h in (b, (λ f. ground arith, λ f. ground arith))
