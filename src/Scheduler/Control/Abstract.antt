-- ===== src/Scheduler/Control/Abstract.antt =====
-- scheduler/scheduler.go: what the scheduler promises, without its map: an ID has a cycle or none, and
-- metadata that is stored for it. The calls implement this.
pub mod Sound
pub mod Refine
use publish_carousel.Prelude.{
  String, ◌≡◌, refl, sym, ap, ◌∙◌, Bool, true, false, not, ◌&&◌, List, [], ◌∷◌, Option, none, some,
  Result, ok, err, panic, inl, inr, if◌then◌else◌, text_eq, eq_iff, arith, Bool-cases, Option-cases,
}
use publish_carousel.Prelude.Int.{ℤ}
use publish_carousel.Scheduler.Metadata.{CycleMetadata}
use publish_carousel.Scheduler.Mode.{
  Mode, running, stopped, SchedulerState, new_scheduler_state, set_state, is_enabled, is_running,
  is_automatically_disabled,
}
use publish_carousel.Scheduler.Cycle.{Cycle, start, stop}
use publish_carousel.Scheduler.Control.{
  CycleMap, Scheduler, MetadataReadWriter, new_scheduler, lookup_cycle, delete_key, add_cycle,
  add_at, insert_new, delete_cycle, delete_at, each_cycle, shutdown, shut_down, start_scheduler,
  save_cycle_metadata, restore_previous_state,
}
use publish_carousel.Scheduler.Control.Toggle.{
  Request, automatic, manual, disabling, disable_after, toggle, toggle_handler, parse_bool,
  or_false,
}
use publish_carousel.Scheduler.Control.Keys.{IsKeyed, lookup-delete_key, each_cycle-IsKeyed}
use publish_carousel.Scheduler.Control.Life.{
  IsWell, new_scheduler-IsWell, Call, adds, deletes, starts, shuts_down, restores, toggles, step,
  run,
}
use publish_carousel.Scheduler.Control.Saved.{
  IsMemory, IsDistinct, each_cycle-IsDistinct, stop_id, shutdown-save,
}
use publish_carousel.Scheduler.Control.Stored.{
  map_option, each_cycle-map_option, delete_key-IsKeyed, delete_key-IsDistinct, saved, revived,
  restore_cycles-IsKeyed, restore_cycles-IsDistinct, save_cycle_metadata-saved,
  restore_cycles-revived, restore_cycles-steady,
}

pub record Abstract : Type 0 where
  pub state : SchedulerState
  pub cycle_at : String → Option Cycle
  pub stored_at : String → Result CycleMetadata

-- `x` at an ID, and what was there at the others.
abbrev pub put_at : String → Option Cycle → (String → Option Cycle) → String → Option Cycle
put_at id x f j = if text_eq id j then x else f j

abbrev pub add : Cycle → Abstract → Option Cycle → Abstract
add c a (some old) = a
add c a none = record a {
  cycle_at =
      put_at c.cycle_id (some (if is_enabled a.state && is_running a.state then start c else c))
        a.cycle_at;
}

abbrev pub begin : Abstract → Abstract
begin a =
    if is_enabled a.state && not (is_running a.state)
    then record a {
      state = set_state a.state running;
      cycle_at = λ j. map_option start (a.cycle_at j);
    }
    else a

module _ {W : Type 0} (rw' : MetadataReadWriter W) where
  abbrev pub end_all : Abstract → Abstract
  end_all a =
      if is_running a.state
      then record {
        state = set_state a.state stopped;
        cycle_at = λ j. map_option stop (a.cycle_at j);
        stored_at = λ j. saved rw' (a.stored_at j) (map_option stop (a.cycle_at j));
      }
      else a

  abbrev pub switch : Bool → Request → Abstract → Abstract
  switch false r a =
      if is_enabled a.state
      then record (end_all a) { state = set_state (end_all a).state (disabling r) }
      else a
  switch true automatic a =
      if not (is_running a.state) && is_automatically_disabled a.state
      then record a { state = set_state a.state stopped }
      else a
  switch true manual a =
      if not (is_running a.state) && not (is_automatically_disabled a.state)
      then record a { state = set_state a.state stopped }
      else a

  abbrev pub promised : Call → Abstract → Abstract
  promised (adds c) a = add c a (a.cycle_at c.cycle_id)
  promised (deletes id) a = record a { cycle_at = put_at id none a.cycle_at }
  promised starts a = begin a
  promised shuts_down a = end_all a
  promised restores a = record a {
    cycle_at = λ j. map_option (revived rw' (a.stored_at j)) (a.cycle_at j);
  }
  promised (toggles value r) a = switch (or_false (parse_bool value)) r a

  abbrev pub promised_all : List Call → Abstract → Abstract
  promised_all [] a = a
  promised_all (c ∷ cs) a = promised_all cs (promised c a)

  -- What the program's scheduler and its world are, seen through lookups and loads.
  abbrev pub view : Scheduler × W → Abstract
  view (s, w) = record {
    state = s.state;
    cycle_at = λ j. lookup_cycle j s.cycles;
    stored_at = λ j. (rw'.load_metadata j w).1;
  }
