-- ===== src/Scheduler/Control/Life.antt =====
-- scheduler/scheduler.go: the life of a scheduler, over every sequence of calls.
use publish_carousel.Prelude.{
  String, ◌≡◌, refl, sym, ap, ◌∙◌, Bool, true, false, List, [], ◌∷◌, panic, if◌then◌else◌, arith,
  ◌≢◌,
}
use publish_carousel.Prelude.Int.{ℤ}
use publish_carousel.Scheduler.Mode.{
  Mode, unknown, running, stopped, disabled, auto_disabled, SchedulerState, new_scheduler_state,
  set_state, is_enabled, is_running, is_automatically_disabled,
}
use publish_carousel.Scheduler.Cycle.{Cycle}
use publish_carousel.Scheduler.Control.{
  Scheduler, MetadataReadWriter, new_scheduler, add_cycle, delete_cycle, shutdown, start_scheduler,
  restore_previous_state,
}
use publish_carousel.Scheduler.Control.Toggle.{
  Request, automatic, manual, toggle, toggle_handler, or_false, parse_bool,
}

-- One checkpoint goroutine runs while the scheduler runs, and none otherwise; and the mode is one
-- of the four that the program sets.
pub record IsWell (s : Scheduler) : Type 0 where
  pub checkpointed : s.checkpoints ≡ (if is_running s.state then 1 else 0)
  pub known : s.state.current_state ≢ unknown

pub new_scheduler-IsWell : (d : ℤ) → IsWell (new_scheduler d)
unfolding new_scheduler new_scheduler_state is_running
new_scheduler-IsWell d = record { checkpointed = refl; known = λ e. cc e }

pub start_scheduler-IsWell : (s : Scheduler) → IsWell s → IsWell (start_scheduler s).0
unfolding start_scheduler is_running is_enabled set_state
start_scheduler-IsWell s v = ground arith

module _ {W : Type 0} (rw' : MetadataReadWriter W) where
  pub shutdown-IsWell : (s : Scheduler) (w : W) → IsWell s → IsWell (shutdown rw' s w).0
  unfolding shutdown is_running set_state
  shutdown-IsWell s w v = ground arith

  -- A well scheduler shuts down or refuses to: it never waits for a checkpoint goroutine that is
  -- not there.
  pub shutdown-ne-panic : (s : Scheduler) (w : W) → IsWell s → (shutdown rw' s w).2 ≢ panic
  unfolding shutdown is_running
  shutdown-ne-panic s w v = ground arith

  pub toggle-IsWell :
      (on : Bool) (r : Request) (s : Scheduler) (w : W) → IsWell s → IsWell (toggle rw' on r s w).0
  unfolding toggle is_running is_enabled set_state is_automatically_disabled shutdown
  toggle-IsWell on automatic s w v = ground arith
  toggle-IsWell on manual s w v = ground arith

pub add_cycle-state :
    (c : Cycle) (s : Scheduler)
    → ((add_cycle c s).0.state ≡ s.state) × ((add_cycle c s).0.checkpoints ≡ s.checkpoints)
unfolding add_cycle
add_cycle-state c s = ground arith

pub delete_cycle-state :
    (id : String) (s : Scheduler)
    → ((delete_cycle id s).0.state ≡ s.state) × ((delete_cycle id s).0.checkpoints ≡ s.checkpoints)
unfolding delete_cycle
delete_cycle-state id s = ground arith

-- A scheduler with the same state and checkpoints is as well.
pub IsWell-same :
    {s t : Scheduler} → t.state ≡ s.state → t.checkpoints ≡ s.checkpoints → IsWell s → IsWell t
IsWell-same e f v = record {
  checkpointed =
      f ∙ v.checkpointed ∙ ap (λ (m : SchedulerState). if is_running m then 1 else 0) (sym e);
  known = λ h. v.known (ap (λ (m : SchedulerState). m.current_state) (sym e) ∙ h);
}

-- The calls that reach a scheduler, in any order.
pub data Call : Type 0 where
  adds : Cycle → Call
  deletes : String → Call
  starts shuts_down restores : Call
  toggles : String → Request → Call

module _ {W : Type 0} (rw' : MetadataReadWriter W) where
  unfoldable pub step : Call → Scheduler × W → Scheduler × W
  step (adds c) (s, w) = ((add_cycle c s).0, w)
  step (deletes id) (s, w) = ((delete_cycle id s).0, w)
  step starts (s, w) = ((start_scheduler s).0, w)
  step shuts_down (s, w) = ((shutdown rw' s w).0, (shutdown rw' s w).1)
  step restores (s, w) = restore_previous_state rw' s w
  step (toggles v r) (s, w) = toggle_handler rw' v r s w

  unfoldable pub run : List Call → Scheduler × W → Scheduler × W
  run [] s = s
  run (c ∷ cs) s = run cs (step c s)

  pub step-IsWell : (c : Call) (s : Scheduler) (w : W) → IsWell s → IsWell (step c (s, w)).0
  unfolding step restore_previous_state toggle_handler
  step-IsWell (adds c) s w v = IsWell-same (add_cycle-state c s).0 (add_cycle-state c s).1 v
  step-IsWell (deletes id) s w v =
      IsWell-same (delete_cycle-state id s).0 (delete_cycle-state id s).1 v
  step-IsWell starts s w v = start_scheduler-IsWell s v
  step-IsWell shuts_down s w v = shutdown-IsWell rw' s w v
  step-IsWell restores s w v = IsWell-same refl refl v
  step-IsWell (toggles t r) s w v = toggle-IsWell rw' (or_false (parse_bool t)) r s w v

  pub run-IsWell : (cs : List Call) (s : Scheduler) (w : W) → IsWell s → IsWell (run cs (s, w)).0
  unfolding run
  run-IsWell [] s w v = v
  run-IsWell (c ∷ cs) s w v =
      run-IsWell cs (step c (s, w)).0 (step c (s, w)).1 (step-IsWell c s w v)

  -- After any calls on a new scheduler, exactly one checkpoint goroutine runs if the scheduler
  -- runs and none if not, and a `Shutdown` does not wait for a goroutine that is not there.
  pub run-shutdown :
      (cs : List Call) (d : ℤ) (w : W)
      → let (s, w') = run cs (new_scheduler d, w) in
        (s.checkpoints ≡ (if is_running s.state then 1 else 0)) × ((shutdown rw' s w').2 ≢ panic)
  run-shutdown cs d w =
      let v = run-IsWell cs (new_scheduler d) w (new_scheduler-IsWell d) in
      (v.checkpointed, shutdown-ne-panic rw' _ _ v)

-- The mode after a toggle, as a table.
unfoldable pub next_mode : Bool → Request → Mode → Mode
next_mode false r disabled = disabled
next_mode false r auto_disabled = auto_disabled
next_mode false manual m = disabled
next_mode false automatic m = auto_disabled
next_mode true r running = running
next_mode true manual auto_disabled = auto_disabled
next_mode true manual m = stopped
next_mode true automatic auto_disabled = stopped
next_mode true automatic m = m

toggle-mode :
    {W : Type 0} (rw' : MetadataReadWriter W) (on : Bool) (r : Request) (s : Scheduler) (w : W)
    → IsWell s
    → (toggle rw' on r s w).0.state.current_state ≡ next_mode on r s.state.current_state
unfolding toggle is_running is_enabled set_state is_automatically_disabled shutdown next_mode
toggle-mode rw' true automatic s w v = ground arith
toggle-mode rw' true manual s w v = ground arith
toggle-mode rw' false automatic s w v = ground arith
toggle-mode rw' false manual s w v = ground arith

-- On a well scheduler a toggle moves the mode by the table: off disables an enabled scheduler, by
-- the kind of the request, and leaves a disabled one as it was disabled; on enables a scheduler only
-- for the kind of request that disabled it, and starts nothing.
pub toggle-next_mode :
    {W : Type 0} (rw' : MetadataReadWriter W) (value : String) (r : Request) (s : Scheduler) (w : W)
    → IsWell s
    → (toggle_handler rw' value r s w).0.state.current_state
      ≡ next_mode (or_false (parse_bool value)) r s.state.current_state
unfolding toggle_handler
toggle-next_mode rw' value r s w v = toggle-mode rw' (or_false (parse_bool value)) r s w v
