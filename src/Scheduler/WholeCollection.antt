-- ===== src/Scheduler/WholeCollection.antt =====
-- scheduler/throttled_whole_collection_cycle.go: the goroutine of a whole-collection cycle.
pub mod Outcome
pub mod Resume
use publish_carousel.Prelude.{
  ℕ, zero, suc, String, Bool, true, false, List, [], ◌∷◌, Option, none, some, Error, Result, ok,
  err, panic, if◌then◌else◌, ◌==◌, inc,
}
use publish_carousel.Native.InMemory.{InMemory, length_in_memory}
use publish_carousel.Native.Builder.{Builder, Built, new_native_uuid_collection}
use publish_carousel.Scheduler.Metadata.{CycleMetadata, blank_metadata, update_state}
use publish_carousel.Scheduler.Publish.{Publisher, Run, Exit, exit, crashed, publish_collection}
use publish_carousel.Scheduler.States.{running_state, stopped_state, unhealthy_state}

-- The results `(skip, b)` of `publishCollectionCycle`: whether the loop goes on, and with what skip.
pub data Flow : Type 0 where
  go_on halt : ℕ → Flow
  crash : Flow

-- The world, the cycle's metadata and the flow after one call.
pub record Iterated (W : Type 0) : Type 0 where
  pub world : W
  pub metadata : CycleMetadata
  pub flow : Flow

abbrev pub unhealthy : CycleMetadata → CycleMetadata
unhealthy = update_state (stopped_state ∷ unhealthy_state ∷ [])

-- The metadata that an iteration starts with.
unfoldable pub new_iteration : ℕ → ℕ → CycleMetadata → CycleMetadata
new_iteration skip total m = record blank_metadata {
  completed = skip;
  state = running_state ∷ [];
  iteration = if skip == 0 then inc m.iteration else m.iteration;
  attempts = inc m.attempts;
  total = total;
}

module _ {W : Type 0} where
  -- After `publishCollection`.
  unfoldable pub after_publish : ℕ → Run W InMemory × Exit → Iterated W
  after_publish skip (r, crashed) = record { world = r.world; metadata = r.metadata; flow = crash }
  after_publish skip (r, exit true e) = record {
    world = r.world;
    metadata = update_state (stopped_state ∷ []) r.metadata;
    flow = halt skip;
  }
  after_publish skip (r, exit false (some e)) = record {
    world = r.world;
    metadata = unhealthy r.metadata;
    flow = halt skip;
  }
  after_publish skip (r, exit false none) = record {
    world = r.world;
    metadata = r.metadata;
    flow = go_on 0;
  }

  abbrev pub map_publish : ℕ → Option (Run W InMemory × Exit) → Option (Iterated W)
  map_publish skip none = none
  map_publish skip (some r) = some (after_publish skip r)

module _ {W : Type 0} (p : Publisher W InMemory) where
  -- After the collection was built.
  unfoldable pub publish_built : ℕ → ℕ → CycleMetadata → Built W → Option (Iterated W)
  unfolding after_publish new_iteration
  publish_built fuel skip m (w, err e) =
      some (record { world = w; metadata = unhealthy m; flow = halt skip })
  publish_built fuel skip m (w, panic) = some (record { world = w; metadata = m; flow = crash })
  publish_built fuel skip m (w, ok it) =
      let n = new_iteration skip (length_in_memory it) m in
      let run = publish_collection p fuel (record { world = w; rest = it; metadata = n }) in
      if length_in_memory it == 0
      then some (record { world = w; metadata = unhealthy n; flow = halt skip })
      else map_publish skip run

  abbrev pub bind_built : ℕ → ℕ → CycleMetadata → Option (Built W) → Option (Iterated W)
  bind_built fuel skip m none = none
  bind_built fuel skip m (some r) = publish_built fuel skip m r

module _ {W S B : Type 0} (b : Builder W S B) (p : Publisher W InMemory) where
  -- none where the fuel of one of the two loops runs out
  unfoldable pub publish_collection_cycle : ℕ → ℕ → CycleMetadata → W → Option (Iterated W)
  unfolding publish_built
  publish_collection_cycle fuel skip m w =
      bind_built p fuel skip m (new_native_uuid_collection b fuel p.collection skip w)

  -- `start`: at most so many rounds of the cycle, from the count of published items.
  unfoldable pub start_rounds : ℕ → ℕ → ℕ → CycleMetadata → W → Option (Iterated W)
  start_rounds fuel zero skip m w = some (record { world = w; metadata = m; flow = go_on skip })
  start_rounds fuel (suc rounds) skip m w = elim (publish_collection_cycle fuel skip m w) [
    | none ↦ none
    | some r ↦ elim r.flow [
      | go_on skip' ↦ start_rounds fuel rounds skip' r.metadata r.world
      | halt skip' ↦ some r
      | crash ↦ some r
    ]
  ]

  unfoldable pub start : ℕ → ℕ → CycleMetadata → W → Option (Iterated W)
  start fuel rounds m w = start_rounds fuel rounds m.completed m w
