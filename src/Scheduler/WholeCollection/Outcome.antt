-- ===== src/Scheduler/WholeCollection/Outcome.antt =====
-- scheduler/throttled_whole_collection_cycle.go: how one iteration of a cycle ends.
use publish_carousel.Prelude.{
  ℕ, ◌+◌, ◌%◌, ◌<◌, String, ◌≡◌, ◌≢◌, refl, ap, ◌∙◌, ◌⊎◌, inl, inr, true, false, arith, List, [],
  ◌∷◌, none, some, ok, if◌then◌else◌, ◌==◌, length, word_mod, Bool-cases,
}
use publish_carousel.Native.InMemory.{InMemory, in_memory, length_in_memory}
use publish_carousel.Scheduler.Metadata.{CycleMetadata, blank_metadata, update_state}
use publish_carousel.Scheduler.Publish.{Publisher, Run, Exit, exit, crashed, publish_collection}
use publish_carousel.Scheduler.Publish.Total.{Ends, publish_collection-Ends}
use publish_carousel.Scheduler.Publish.Stopped.{WhenDone, publish_collection-WhenDone}
use publish_carousel.Scheduler.Publish.Frame.{SameIteration, publish_collection-SameIteration}
use publish_carousel.Scheduler.States.{running_state, stopped_state, unhealthy_state, sort_texts}
use publish_carousel.Scheduler.WholeCollection.{
  Flow, go_on, halt, crash, Iterated, unhealthy, new_iteration, after_publish, publish_built,
}

-- The metadata that an iteration over the collection `it` begins with, after the metadata `m`.
abbrev pub begun : ℕ → InMemory → CycleMetadata → CycleMetadata
begun skip it m = record blank_metadata {
  completed = skip;
  state = running_state ∷ [];
  total = (length it.uuids + it.skip) % word_mod;
  iteration = if skip == 0 then (m.iteration + 1) % word_mod else m.iteration;
  attempts = (m.attempts + 1) % word_mod;
}

-- One attempt is counted, and an iteration more where the skip is 0.
abbrev pub Counts : ℕ → CycleMetadata → CycleMetadata → Type 0
Counts skip m n =
    (n.attempts ≡ (m.attempts + 1) % word_mod)
    × (n.iteration ≡ (if skip == 0 then (m.iteration + 1) % word_mod else m.iteration))

-- What becomes of the iteration after the loop has ended in this way, with this metadata.
abbrev pub Leads : ℕ → InMemory → CycleMetadata → CycleMetadata → Flow → Exit → Type 0
Leads skip it q n f (exit true e) =
    (f ≡ halt skip) × (n.state ≡ stopped_state ∷ []) × (n.completed ≡ q.completed)
Leads skip it q n f (exit false none) =
    (f ≡ go_on 0)
    × (n.state ≡ running_state ∷ [])
    × (n.completed ≡ (skip + length it.uuids + 1) % word_mod)
    × (n.total ≡ (length it.uuids + it.skip) % word_mod)
Leads skip it q n f (exit false (some e)) = ⊥
Leads skip it q n f crashed =
    (f ≡ crash) × (n.state ≡ running_state ∷ []) × (n.completed ≡ q.completed)

-- An iteration over nothing, and one over a collection with something in it.
abbrev pub EndsEmpty : {W : Type 0} → ℕ → InMemory → CycleMetadata → W → Iterated W → Type 0
EndsEmpty skip it m w r =
    ((length it.uuids + it.skip) % word_mod ≡ 0)
    × (r.world ≡ w)
    × (r.flow ≡ halt skip)
    × (r.metadata.state ≡ stopped_state ∷ unhealthy_state ∷ [])
    × (r.metadata.completed ≡ skip)
    × Counts skip m r.metadata

abbrev pub EndsFull :
    {W : Type 0} → Publisher W InMemory → ℕ → ℕ → InMemory → CycleMetadata → W → Iterated W → Type 0
EndsFull {W} p fuel skip it m w r =
    ((length it.uuids + it.skip) % word_mod ≢ 0)
    × (q : Run W InMemory) × (x : Exit) × (publish_collection p fuel
          (record { world = w; rest = it; metadata = begun skip it m })
        ≡ some (q, x))
    × Ends it.uuids (begun skip it m) q x
    × WhenDone p q x
    × (r.world ≡ q.world)
    × Leads skip it q.metadata r.metadata r.flow x
    × Counts skip m r.metadata

update_state_stopped :
    (m : CycleMetadata) → (update_state (stopped_state ∷ []) m).state ≡ stopped_state ∷ []
unfolding update_state sort_texts
update_state_stopped m = refl

update_state_unhealthy :
    (m : CycleMetadata) → (unhealthy m).state ≡ stopped_state ∷ unhealthy_state ∷ []
unfolding update_state sort_texts
update_state_unhealthy m = refl

update_state-attempts :
    (l : List String) (m : CycleMetadata)
    → ((update_state l m).attempts ≡ m.attempts) × ((update_state l m).iteration ≡ m.iteration)
unfolding update_state
update_state-attempts l m = (refl, refl)

update_state-completed :
    (l : List String) (m : CycleMetadata) → (update_state l m).completed ≡ m.completed
unfolding update_state
update_state-completed l m = refl

begun-new_iteration :
    (skip : ℕ) (it : InMemory) (m : CycleMetadata)
    → new_iteration skip (length_in_memory it) m ≡ begun skip it m
unfolding new_iteration length_in_memory
begun-new_iteration skip it m = refl

module _ {W : Type 0} (p : Publisher W InMemory) where
  after_publish-Leads :
      (skip : ℕ) (it : InMemory) (m : CycleMetadata) (q : Run W InMemory) (x : Exit)
      → Ends it.uuids (begun skip it m) q x
      → SameIteration (begun skip it m) q.metadata
      → let r = after_publish skip (q, x) in
        (r.world ≡ q.world)
        × Leads skip it q.metadata r.metadata r.flow x
        × Counts skip m r.metadata
  unfolding after_publish
  after_publish-Leads skip it m q (exit true e) ends same = (
    refl,
    (refl, update_state_stopped q.metadata, update_state-completed (stopped_state ∷ []) q.metadata),
    (
      (update_state-attempts _ q.metadata).0 ∙ same.attempts,
      (update_state-attempts _ q.metadata).1 ∙ same.iteration,
    ),
  )
  after_publish-Leads skip it m q (exit false none) (z, d, c) same =
      (refl, (refl, same.state, c, same.total), (same.attempts, same.iteration))
  after_publish-Leads skip it m q (exit false (some e)) (z, d, c) same = cc z
  after_publish-Leads skip it m q crashed ends same =
      (refl, (refl, same.state, refl), (same.attempts, same.iteration))

  publish_built_empty :
      (fuel skip : ℕ) (it : InMemory) (m : CycleMetadata) (w : W)
      → length_in_memory it ≡ 0
      → (r : Iterated W) × (publish_built p fuel skip m (w, ok it) ≡ some r)
        × EndsEmpty skip it m w r
  unfolding publish_built length_in_memory
  publish_built_empty fuel skip it m w z =
      let n = new_iteration skip (length_in_memory it) m in
      let same = begun-new_iteration skip it m in
      (
        record { world = w; metadata = unhealthy n; flow = halt skip },
        rw z refl,
        (
          z,
          refl,
          refl,
          update_state_unhealthy n,
          update_state-completed _ n ∙ ap (λ (k : CycleMetadata). k.completed) same,
          (
            (update_state-attempts _ n).0 ∙ ap (λ (k : CycleMetadata). k.attempts) same,
            (update_state-attempts _ n).1 ∙ ap (λ (k : CycleMetadata). k.iteration) same,
          ),
        ),
      )

  publish_built_full :
      (fuel skip : ℕ) (it : InMemory) (m : CycleMetadata) (w : W)
      → p.source ≡ in_memory
      → skip < word_mod
      → length it.uuids < fuel
      → (length_in_memory it == 0) ≡ false
      → (r : Iterated W) × (publish_built p fuel skip m (w, ok it) ≡ some r)
        × EndsFull p fuel skip it m w r
  unfolding publish_built length_in_memory new_iteration
  publish_built_full fuel skip it m w src b f nz =
      let start : Run W InMemory = record { world = w; rest = it; metadata = begun skip it m } in
      let (q, x, run, ends) = publish_collection-Ends p fuel start it.uuids src refl b f in
      let same = publish_collection-SameIteration p fuel start q x run in
      let (world, leads, counts) = after_publish-Leads skip it m q x ends same in
      (
        after_publish skip (q, x),
        rw (nz, run) refl,
        (
          λ z. ground (arith, nz, z),
          q,
          x,
          run,
          ends,
          publish_collection-WhenDone p fuel start q x run,
          world,
          leads,
          counts,
        ),
      )

  -- Over any collection in memory that was built, with more fuel than it has UUIDs and a skip below
  -- 2 ^ 64, the iteration returns, and counts one attempt, and an iteration more if the skip is 0.
  -- Where the length of the collection, its UUIDs and its skip at 2 ^ 64, is 0, the cycle halts with
  -- the skip as before, stopped and unhealthy, and nothing else has happened. Where it is not, the
  -- loop was run from the new metadata, and how the loop ended decides. Where it was stopped, which it
  -- is only with an error of the context, the cycle halts with the skip as before and the state
  -- stopped alone, and keeps the count of the loop; where it came to the end, the cycle goes on with
  -- skip 0 and the state running, and `completed` is the skip and the UUIDs of the collection and one
  -- more; and where the task panicked, so does the goroutine, with the state still running.
  pub publish_built-EndsIteration :
      (fuel skip : ℕ) (it : InMemory) (m : CycleMetadata) (w : W)
      → p.source ≡ in_memory
      → skip < word_mod
      → length it.uuids < fuel
      → (r : Iterated W) × (publish_built p fuel skip m (w, ok it) ≡ some r)
        × (EndsEmpty skip it m w r ⊎ EndsFull p fuel skip it m w r)
  publish_built-EndsIteration fuel skip it m w src b f =
      elim (Bool-cases (length_in_memory it == 0)) [
        | inl z ↦
            let (r, done, ends) = publish_built_empty fuel skip it m w (ground (arith, z)) in
            (r, done, inl ends)
        | inr nz ↦
            let (r, done, ends) = publish_built_full fuel skip it m w src b f nz in
            (r, done, inr ends)
      ]
