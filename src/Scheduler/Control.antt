-- ===== src/Scheduler/Control.antt =====
-- scheduler/scheduler.go: the scheduler's cycles and the operations on them.
-- Here the operations follow one another. `AddCycle` and `DeleteCycle` hold their lock alone, and the
-- toggles have one of their own; `Start` and `Shutdown` only share a lock, and where they overlap is
-- in Scheduler.Overlapping. A map of cycles is an
-- association list, and an operation visits it in the order of the list; what is proved holds of
-- every list, so in any order of Go's map.
pub mod Toggle
pub mod Keys
pub mod Life
pub mod Saved
pub mod Stored
pub mod Checkpoint
pub mod Abstract
use Prim.Native.String.{◌++◌ as append}
use publish_carousel.Prelude.{
  ℕ, suc, ◌-◌, String, Bool, true, false, not, ◌&&◌, ◌||◌, List, [], ◌∷◌, map, Option, none, some,
  Error, Result, ok, err, panic, if◌then◌else◌, concat, text_eq, ltb, length,
}
use publish_carousel.Prelude.Int.{ℤ, pos, ltb_ℤ, quot}
use publish_carousel.Scheduler.Metadata.{CycleMetadata}
use publish_carousel.Scheduler.Mode.{
  Mode, running, stopped, disabled, auto_disabled, SchedulerState, new_scheduler_state, set_state,
  is_enabled, is_running, is_automatically_disabled,
}
use publish_carousel.Scheduler.Cycle.{
  Cycle, Kind, whole_collection, scaling_window, start, stop, set_metadata, is_whole_collection,
}

abbrev pub CycleMap : Type 0
CycleMap = List (String × Cycle)

-- `checkpoints` counts the goroutines of the checkpoint handler.
pub record Scheduler : Type 0 where
  pub cycles : CycleMap
  pub state : SchedulerState
  pub default_throttle : ℤ
  pub checkpoints : ℕ

-- `MetadataReadWriter`, over the world `W`; a cycle is written with its configuration, which is
-- read off the cycle.
pub record MetadataReadWriter (W : Type 0) : Type 0 where
  pub load_metadata : String → W → W × Result CycleMetadata
  pub write_metadata : String → Cycle → CycleMetadata → W → W × Option Error

unfoldable pub new_scheduler : ℤ → Scheduler
new_scheduler default_throttle = record {
  cycles = [];
  state = new_scheduler_state;
  default_throttle = default_throttle;
  checkpoints = 0;
}

unfoldable pub lookup_cycle : String → CycleMap → Option Cycle
lookup_cycle id [] = none
lookup_cycle id ((k, c) ∷ m) = if text_eq k id then some c else lookup_cycle id m

unfoldable pub delete_key : String → CycleMap → CycleMap
delete_key id [] = []
delete_key id ((k, c) ∷ m) =
    let rest = delete_key id m in if text_eq k id then rest else (k, c) ∷ rest

abbrev pub insert_new : Cycle → Scheduler → Scheduler
insert_new c s = record s {
  cycles = (c.cycle_id, if is_enabled s.state && is_running s.state then start c else c) ∷ s.cycles;
}

abbrev pub add_at : Cycle → Scheduler → Option Cycle → Scheduler × Option Error
add_at c s (some old) = (s, some (append "Conflicting ID found for cycle " c.cycle_id))
add_at c s none = (insert_new c s, none)

-- `AddCycle`: started at once where the scheduler is running.
unfoldable pub add_cycle : Cycle → Scheduler → Scheduler × Option Error
unfolding lookup_cycle
add_cycle c s = add_at c s (lookup_cycle c.cycle_id s.cycles)

abbrev pub delete_at : String → Scheduler → Option Cycle → Scheduler × Option Cycle × Option Error
delete_at id s none =
    (s, none, some (concat ("Cannot stop cycle: cycle with id " ∷ id ∷ " not found" ∷ [])))
delete_at id s (some c) = (record s { cycles = delete_key id s.cycles }, some (stop c), none)

-- `DeleteCycle`: the cycle that was stopped and left the map stands between the two results.
unfoldable pub delete_cycle : String → Scheduler → Scheduler × Option Cycle × Option Error
unfolding lookup_cycle delete_key
delete_cycle id s = delete_at id s (lookup_cycle id s.cycles)

-- `f` on each cycle of the map.
unfoldable pub each_cycle : (Cycle → Cycle) → CycleMap → CycleMap
each_cycle f [] = []
each_cycle f ((k, c) ∷ m) = (k, f c) ∷ each_cycle f m

module _ {W : Type 0} (rw' : MetadataReadWriter W) where
  -- `saveCycleMetadata`: an error of a write is only logged.
  unfoldable pub save_cycle_metadata : CycleMap → W → W
  save_cycle_metadata [] w = w
  save_cycle_metadata ((k, c) ∷ m) w =
      save_cycle_metadata m
        (if is_whole_collection c then (rw'.write_metadata c.cycle_id c c.metadata w).0 else w)

  -- A cycle whose metadata cannot be loaded stays as it is.
  abbrev pub restored : Cycle → Result CycleMetadata → Cycle
  restored c (ok m) = set_metadata m c
  restored c (err e) = c
  restored c panic = c

  -- `RestorePreviousState`
  unfoldable pub restore_cycles : CycleMap → W → CycleMap × W
  restore_cycles [] w = ([], w)
  restore_cycles ((k, c) ∷ m) w =
      let loaded = rw'.load_metadata k w in
      let w' = if is_whole_collection c then loaded.0 else w in
      let c' = if is_whole_collection c then restored c loaded.1 else c in
      let rest = restore_cycles m w' in ((k, c') ∷ rest.0, rest.1)

  unfoldable pub restore_previous_state : Scheduler → W → Scheduler × W
  unfolding restore_cycles
  restore_previous_state s w =
      let rest = restore_cycles s.cycles w in (record s { cycles = rest.0 }, rest.1)

  abbrev pub shut_down : Scheduler → Scheduler
  shut_down s = record s {
    cycles = each_cycle stop s.cycles;
    state = set_state s.state stopped;
    checkpoints = s.checkpoints - 1;
  }

  -- `Shutdown`, where no other call comes between. It panics nowhere; where no checkpoint goroutine runs, `stop` would wait for one
  -- without end, which the result `panic` stands for.
  unfoldable pub shutdown : Scheduler → W → Scheduler × W × Result (Unit {0})
  unfolding save_cycle_metadata each_cycle
  shutdown s w =
      if not (is_running s.state)
      then (s, w, err "Scheduler has already been shut down")
      else if ltb 0 s.checkpoints
      then (shut_down s, save_cycle_metadata (each_cycle stop s.cycles) w, ok tt)
      else (
        record s { cycles = each_cycle stop s.cycles; state = set_state s.state stopped },
        w,
        panic,
      )

-- `Start`, where the interval of the checkpoints is above 0 and no other call comes between. It sleeps
-- for `archive_cycle_start_interval` after each cycle, which changes nothing here.
unfoldable pub start_scheduler : Scheduler → Scheduler × Option Error
unfolding each_cycle
start_scheduler s =
    if not (is_enabled s.state)
    then (s, some "Scheduler is not enabled")
    else if is_running s.state
    then (s, some "Scheduler is already running")
    else (
      record s {
        state = set_state s.state running;
        cycles = each_cycle start s.cycles;
        checkpoints = suc s.checkpoints;
      },
      none,
    )

-- `Start` with any interval of the checkpoints: after the cycles, `time.NewTicker` panics for one that
-- is not above 0, and there is no goroutine then.
unfoldable pub start_with_interval : ℤ → Scheduler → Scheduler × Result (Unit {0})
unfolding each_cycle
start_with_interval interval s =
    if not (is_enabled s.state)
    then (s, err "Scheduler is not enabled")
    else if is_running s.state
    then (s, err "Scheduler is already running")
    else if ltb_ℤ (pos 0) interval
    then (
      record s {
        state = set_state s.state running;
        cycles = each_cycle start s.cycles;
        checkpoints = suc s.checkpoints;
      },
      ok tt,
    )
    else (record s { state = set_state s.state running; cycles = each_cycle start s.cycles }, panic)

-- The intervals of the whole-collection cycles, in the order of the map.
unfoldable pub archive_intervals : CycleMap → List ℤ
archive_intervals [] = []
archive_intervals ((k, c) ∷ m) =
    let rest = archive_intervals m in
    elim c.kind [ whole_collection t ↦ t ∷ rest | scaling_window w lo hi ↦ rest ]

abbrev pub minimum : ℤ → List ℤ → ℤ
minimum least [] = least
minimum least (t ∷ ts) = minimum (if ltb_ℤ t least then t else least) ts

abbrev pub start_interval : List ℤ → ℤ
start_interval [] = pos 0
start_interval (t ∷ []) = pos 0
start_interval (t ∷ u ∷ ts) = quot (minimum t (t ∷ u ∷ ts)) (pos (length (t ∷ u ∷ ts)))

-- `archiveCycleStartInterval`: how long `Start` sleeps after each cycle.
unfoldable pub archive_cycle_start_interval : CycleMap → ℤ
unfolding archive_intervals quot
archive_cycle_start_interval m = start_interval (archive_intervals m)
