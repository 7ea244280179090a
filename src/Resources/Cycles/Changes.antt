-- ===== src/Resources/Cycles/Changes.antt =====
-- resources/cycles.go: what the handlers that create, delete, resume, stop and reset a cycle do to
-- the map of cycles.
use publish_carousel.Prelude.{
  String, ◌≡◌, refl, ◌∙◌, ap, [], ◌∷◌, Option, none, some, Error, ◌⊎◌, ok, if◌then◌else◌, text_eq,
  eq_iff, arith,
}
use publish_carousel.Scheduler.Duration.{DurationText}
use publish_carousel.Scheduler.Metadata.{CycleMetadata}
use publish_carousel.Scheduler.Cycle.{Cycle, set_metadata}
use publish_carousel.Scheduler.Config.{CycleConfig, validate, new_cycle}
use publish_carousel.Scheduler.Control.{
  CycleMap, Scheduler, lookup_cycle, insert_new, add_cycle, add_at, delete_cycle,
}
use publish_carousel.Scheduler.Control.Keys.{launched, delete_cycle-lookup}
use publish_carousel.Resources.Cycles.Readers.{marshalled, cycle_not_found, shown, get_cycle_for_id}
use publish_carousel.Resources.Cycles.{
  reply, change_cycle, change_found, on_cycle, deleted, delete_handler, create_cycle,
  create_handler, with_metadata, created, create_valid,
}

lookup-change_cycle :
    (f : Cycle → Cycle) (id j : String) (m : CycleMap) (c : Cycle)
    → lookup_cycle id m ≡ some c
    → lookup_cycle j (change_cycle f id m) ≡ (if text_eq id j then some (f c) else lookup_cycle j m)
unfolding lookup_cycle change_cycle
lookup-change_cycle f id j [] c h = cc h
lookup-change_cycle f id j ((k, x) ∷ m) c h =
    ground (arith, eq_iff id j, eq_iff k id, eq_iff k j, lookup-change_cycle f id j m c)

-- A handler that changes the cycle of an ID in the map, as those that resume, reset and stop it do,
-- answers 200, changes that cycle, and leaves every other ID alone.
pub on_cycle-lookup :
    (f : Cycle → Cycle) (id : String) (s : Scheduler) (c : Cycle)
    → lookup_cycle id s.cycles ≡ some c
    → ((on_cycle f id s).1 ≡ reply 200)
      × ((j : String)
          → lookup_cycle j (on_cycle f id s).0.cycles
            ≡ (if text_eq id j then some (f c) else lookup_cycle j s.cycles))
unfolding on_cycle
on_cycle-lookup f id s c found =
    rw (found, change_found) (refl, λ j. lookup-change_cycle f id j s.cycles c found)

-- `createCycle` of a cycle whose ID is new.
pub create_cycle-fresh :
    (d : DurationText) (digest : String → String) (config : CycleConfig)
    (metadata : Option CycleMetadata) (s : Scheduler) (x : Cycle)
    → new_cycle d digest s.default_throttle config ≡ ok (some x)
    → lookup_cycle x.cycle_id s.cycles ≡ none
    → create_cycle d digest config metadata s
      ≡ (insert_new (with_metadata metadata x) s, ok x.cycle_id)
unfolding create_cycle add_cycle set_metadata
create_cycle-fresh d digest config none s x made fresh = rw (made, created, fresh, add_at) refl
create_cycle-fresh d digest config (some m) s x made fresh = rw (made, created, fresh, add_at) refl

lookup-insert_new :
    (x : Cycle) (s : Scheduler)
    → lookup_cycle x.cycle_id (insert_new x s).cycles ≡ some (launched s x)
unfolding lookup_cycle
lookup-insert_new x s = ground (arith, eq_iff x.cycle_id x.cycle_id)

lookup-insert_new-others :
    (x : Cycle) (s : Scheduler) (j : String)
    → lookup_cycle x.cycle_id s.cycles ≡ none
    → (if text_eq x.cycle_id j then none else lookup_cycle j (insert_new x s).cycles)
      ≡ lookup_cycle j s.cycles
unfolding lookup_cycle
lookup-insert_new-others x s j fresh = ground (arith, eq_iff x.cycle_id j)

deleted_ok :
    (a : Scheduler × Option Cycle × Option Error)
    → a.2 ≡ none
    → ((deleted a).1 ≡ reply 204) × ((deleted a).0 ≡ a.0)
deleted_ok (s, c, e) h = rw (h, deleted) (refl, refl)

-- Taking out again what was put in.
delete_handler-insert_new :
    (x : Cycle) (s : Scheduler)
    → lookup_cycle x.cycle_id s.cycles ≡ none
    → ((delete_handler x.cycle_id (insert_new x s)).1 ≡ reply 204)
      × ((j : String)
          → lookup_cycle j (delete_handler x.cycle_id (insert_new x s)).0.cycles
            ≡ lookup_cycle j s.cycles)
unfolding delete_handler
delete_handler-insert_new x s fresh =
    let (gone, quiet, rest) =
      delete_cycle-lookup x.cycle_id (launched s x) (insert_new x s) (lookup-insert_new x s) in
    let (status, same) = deleted_ok (delete_cycle x.cycle_id (insert_new x s)) quiet in
    (
      status,
      λ j.
          ap (λ (a : Scheduler). lookup_cycle j a.cycles) same
          ∙ rest j
          ∙ lookup-insert_new-others x s j fresh,
    )

-- The cycle that a valid configuration describes, where its ID is new, is created with the answer
-- 201, stands at its ID then and is what GetCycleForID answers with, as JSON; deleting that ID gives
-- the answer 204, every ID finds again what it found before, and GetCycleForID answers 404.
pub delete_handler-create_handler :
    {B : Type 0} (marshal : Cycle → Error ⊎ B) (d : DurationText) (digest : String → String)
    (config : CycleConfig) (s : Scheduler) (x : Cycle)
    → validate d config ≡ ok tt
    → new_cycle d digest s.default_throttle config ≡ ok (some x)
    → lookup_cycle x.cycle_id s.cycles ≡ none
    → let made = create_handler d digest (ok config) s in
      (made.1 ≡ ok (reply 201))
      × (lookup_cycle x.cycle_id made.0.cycles ≡ some (launched s x))
      × (get_cycle_for_id marshal x.cycle_id made.0 ≡ marshalled (marshal (launched s x)))
      × ((delete_handler x.cycle_id made.0).1 ≡ reply 204)
      × ((j : String)
          → lookup_cycle j (delete_handler x.cycle_id made.0).0.cycles ≡ lookup_cycle j s.cycles)
      × (get_cycle_for_id marshal x.cycle_id (delete_handler x.cycle_id made.0).0
          ≡ cycle_not_found x.cycle_id)
unfolding create_handler get_cycle_for_id
delete_handler-create_handler marshal d digest config s x valid new fresh =
    let (status, others) = delete_handler-insert_new x s fresh in
    rw (valid, create_valid, create_cycle-fresh d digest config none s x new fresh)
      (
        refl,
        lookup-insert_new x s,
        ap (shown marshal x.cycle_id) (lookup-insert_new x s),
        status,
        others,
        ap (shown marshal x.cycle_id) (others x.cycle_id ∙ fresh),
      )
