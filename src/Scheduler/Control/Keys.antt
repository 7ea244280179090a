-- ===== src/Scheduler/Control/Keys.antt =====
-- scheduler/scheduler.go: the map of cycles under `AddCycle`, `DeleteCycle` and the other calls.
use publish_carousel.Prelude.{
  String, ◌≡◌, refl, sym, ◌∙◌, true, false, ◌&&◌, [], ◌∷◌, none, some, Error, if◌then◌else◌,
  text_eq, eq_iff, arith, All, ok,
}
use publish_carousel.Scheduler.Mode.{SchedulerState, running, set_state, is_enabled, is_running}
use publish_carousel.Scheduler.Cycle.{Cycle, start, stop}
use publish_carousel.Scheduler.Control.{
  CycleMap, Scheduler, MetadataReadWriter, lookup_cycle, delete_key, add_cycle, add_at,
  delete_cycle, delete_at, each_cycle, start_scheduler, shutdown,
}

-- What `AddCycle` puts into the map.
abbrev pub launched : Scheduler → Cycle → Cycle
launched s c = if is_enabled s.state && is_running s.state then start c else c

-- A cycle whose ID is not in the map is added with no error, started if the scheduler runs, and
-- every other ID finds what it found before.
pub add_cycle-lookup :
    (c : Cycle) (s : Scheduler)
    → lookup_cycle c.cycle_id s.cycles ≡ none
    → ((add_cycle c s).1 ≡ none)
      × ((j : String)
          → lookup_cycle j (add_cycle c s).0.cycles
            ≡ (if text_eq c.cycle_id j then some (launched s c) else lookup_cycle j s.cycles))
unfolding add_cycle
add_cycle-lookup c s fresh = rw (fresh, add_at) (refl, λ j. refl)

-- A cycle whose ID is in the map is refused with an error, and nothing changes.
pub add_cycle-conflict :
    (c old : Cycle) (s : Scheduler)
    → lookup_cycle c.cycle_id s.cycles ≡ some old
    → ((add_cycle c s).0 ≡ s) × ((e : Error) × ((add_cycle c s).1 ≡ some e))
unfolding add_cycle
add_cycle-conflict c old s found = rw (found, add_at) (refl, (_, refl))

pub lookup-delete_key :
    (id j : String) (m : CycleMap)
    → lookup_cycle j (delete_key id m) ≡ (if text_eq id j then none else lookup_cycle j m)
unfolding lookup_cycle delete_key
lookup-delete_key id j [] = ground arith
lookup-delete_key id j ((k, c) ∷ m) =
    ground (arith, eq_iff id j, eq_iff k id, eq_iff k j, lookup-delete_key id j m)

-- `DeleteCycle` of an ID in the map stops its cycle, reports no error, and takes the ID, and no
-- other, out of the map.
pub delete_cycle-lookup :
    (id : String) (c : Cycle) (s : Scheduler)
    → lookup_cycle id s.cycles ≡ some c
    → ((delete_cycle id s).1 ≡ some (stop c))
      × ((delete_cycle id s).2 ≡ none)
      × ((j : String)
          → lookup_cycle j (delete_cycle id s).0.cycles
            ≡ (if text_eq id j then none else lookup_cycle j s.cycles))
unfolding delete_cycle
delete_cycle-lookup id c s found =
    rw (found, delete_at) (refl, refl, λ j. lookup-delete_key id j s.cycles)

-- `DeleteCycle` of an ID that is not in the map reports an error and changes nothing.
pub delete_cycle-missing :
    (id : String) (s : Scheduler)
    → lookup_cycle id s.cycles ≡ none
    → ((delete_cycle id s).0 ≡ s) × ((e : Error) × ((delete_cycle id s).2 ≡ some e))
unfolding delete_cycle
delete_cycle-missing id s missing = rw (missing, delete_at) (refl, (_, refl))

-- Each cycle stands under its own ID.
abbrev pub IsKeyed : CycleMap → Type 0
IsKeyed m = All (λ (p : String × Cycle). p.0 ≡ p.1.cycle_id) m

pub each_cycle-IsKeyed :
    (f : Cycle → Cycle) (m : CycleMap)
    → ((c : Cycle) → (f c).cycle_id ≡ c.cycle_id)
    → IsKeyed m
    → IsKeyed (each_cycle f m)
unfolding each_cycle
each_cycle-IsKeyed f [] same h = tt
each_cycle-IsKeyed f ((k, c) ∷ m) same (e, h) = (e ∙ sym (same c), each_cycle-IsKeyed f m same h)

-- What the other calls find: each of the cycles that were there, changed by `f`.
pub lookup-each_cycle :
    (f : Cycle → Cycle) (j : String) (m : CycleMap) (x : Cycle)
    → lookup_cycle j m ≡ some x
    → lookup_cycle j (each_cycle f m) ≡ some (f x)
unfolding lookup_cycle each_cycle
lookup-each_cycle f j [] x h = cc h
lookup-each_cycle f j ((k, c) ∷ m) x h = ground (arith, lookup-each_cycle f j m x)

set_state-is_running : (s : SchedulerState) → is_running (set_state s running) ≡ true
unfolding is_running set_state
set_state-is_running s = ground arith

-- A scheduler that can be started starts every cycle it has.
pub start_scheduler-lookup :
    (s : Scheduler) (j : String) (c : Cycle)
    → is_enabled s.state ≡ true
    → is_running s.state ≡ false
    → lookup_cycle j s.cycles ≡ some c
    → ((start_scheduler s).1 ≡ none)
      × (is_running (start_scheduler s).0.state ≡ true)
      × (lookup_cycle j (start_scheduler s).0.cycles ≡ some (start c))
unfolding start_scheduler
start_scheduler-lookup s j c on off found =
    rw (on, off) (refl, set_state-is_running s.state, lookup-each_cycle start j s.cycles c found)

-- A shutdown that succeeds stops every cycle, and the scheduler runs no more.
pub shutdown-lookup :
    {W : Type 0} (rw' : MetadataReadWriter W) (s : Scheduler) (w : W) (j : String) (c : Cycle)
    → (shutdown rw' s w).2 ≡ ok tt
    → lookup_cycle j s.cycles ≡ some c
    → (is_running (shutdown rw' s w).0.state ≡ false)
      × (lookup_cycle j (shutdown rw' s w).0.cycles ≡ some (stop c))
unfolding shutdown is_running set_state
shutdown-lookup rw' s w j c done found = ground (arith, lookup-each_cycle stop j s.cycles c found)
