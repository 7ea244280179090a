-- ===== src/Scheduler/WholeCollection/Resume.antt =====
-- A whole-collection cycle that is stopped and started again, and one that is stopped while it
-- loads (scheduler/throttled_whole_collection_cycle.go, native/in_memory_collection.go).
pub mod Once
use publish_carousel.Prelude.{
  ℕ, suc, ◌<◌, String, ◌≡◌, refl, ap, sym, subst, ◌∙◌, true, false, Option, none, some, Error, ok,
  ◌==◌, drop, length, arith, sign_bit, word_mod,
}
use publish_carousel.Native.InMemory.{InMemory, in_memory, length_in_memory}
use publish_carousel.Native.Persist.{Store, read_from_s3}
use publish_carousel.Native.Load.{Loader, load_into_memory}
use publish_carousel.Native.Load.Persisted.{load_into_memory-persisted, load_into_memory-cancelled}
use publish_carousel.Native.Builder.{
  Builder, new_native_uuid_collection, after_open, after_find, built,
}
use publish_carousel.Scheduler.Metadata.{CycleMetadata}
use publish_carousel.Scheduler.Publish.{Publisher, Run, Exit, exit, publish_collection}
use publish_carousel.Scheduler.Publish.Total.{Ends, publish_collection-Ends}
use publish_carousel.Scheduler.WholeCollection.{
  halt, unhealthy, new_iteration, bind_built, publish_collection_cycle,
}

module _ {W : Type 0} (p : Publisher W InMemory) where
  -- `publish_collection` gives one result only.
  pub run-Ends :
      (fuel : ℕ) (r r' : Run W InMemory) (x : Exit)
      → p.source ≡ in_memory
      → r.metadata.completed < word_mod
      → length r.rest.uuids < fuel
      → publish_collection p fuel r ≡ some (r', x)
      → Ends r.rest.uuids r.metadata r' x
  run-Ends fuel r r' x src b f h =
      let (r'', y, run, ends) = publish_collection-Ends p fuel r r.rest.uuids src refl b f in
      let same : some (r'', y) ≡ some (r', x) = sym run ∙ h in
      let same_run : r'' ≡ r' = cc same in
      let same_exit : y ≡ x = cc same in
      subst (λ (q : Run W InMemory). Ends r.rest.uuids r.metadata q x) same_run
        (subst (λ z. Ends r.rest.uuids r.metadata r'' z) same_exit ends)

  -- A cycle that published the list in S3 from its start and was stopped on the way, and is started
  -- again with the count of items completed then, neither none nor all, loads exactly the UUIDs that
  -- it had left, where S3 gives the list again and it is shorter than 2 ^ 63.
  pub resume_loads_rest :
      {S B : Type 0} (l : Loader W S B) (fuel fuel' : ℕ) (r r' : Run W InMemory) (e : Option Error)
      (collection : String) (s : S) (w w' : W) (store : Store W B)
      → p.source ≡ in_memory
      → r.metadata.completed ≡ 0
      → length r.rest.uuids < fuel
      → length r.rest.uuids < sign_bit
      → publish_collection p fuel r ≡ some (r', exit true e)
      → 0 < r'.metadata.completed
      → r'.metadata.completed < length r.rest.uuids
      → l.store ≡ some store
      → read_from_s3 store collection w ≡ (w', ok r.rest.uuids)
      → load_into_memory l fuel' collection r'.metadata.completed s w
        ≡ some (
          w',
          l.source.close s,
          ok (
            record { uuids = r'.rest.uuids; collection = collection; skip = r'.metadata.completed },
            none,
          ),
        )
  resume_loads_rest l fuel fuel' r r' e collection s w w' store src z f b run pos lt st rd =
      let (k, le, rest, c) = run-Ends fuel r r' (exit true e) src (omega arith) f run in
      let count : r'.metadata.completed ≡ k = omega arith in
      subst
        (λ us.
          load_into_memory l fuel' collection r'.metadata.completed s w
          ≡ some (
            w',
            l.source.close s,
            ok (record { uuids = us; collection = collection; skip = r'.metadata.completed }, none),
          ))
        (ap (λ n. drop n r.rest.uuids) count ∙ sym rest)
        (load_into_memory-persisted l fuel' collection r'.metadata.completed s w w' store
          r.rest.uuids st rd pos lt b)

module _ {W S B : Type 0} (b : Builder W S B) (p : Publisher W InMemory) where
  -- Where the database answers with a collection that is not empty, and the context is cancelled
  -- before the first UUID was read, a cycle that begins its collection is marked stopped and
  -- unhealthy, as if the collection had been empty.
  publish_collection_cycle-cancelled :
      (fuel : ℕ) (m : CycleMetadata) (w w₁ w₂ : W) (s : S) (e : Error)
      → b.open_db w ≡ (w₁, none)
      → b.find_uuids p.collection 0 100 w₁ ≡ (w₂, ok s)
      → b.loader.ctx_err w₂ ≡ some e
      → (b.loader.source.length s == 0) ≡ false
      → publish_collection_cycle b p (suc fuel) 0 m w
        ≡ some (record { world = w₂; metadata = unhealthy (new_iteration 0 0 m); flow = halt 0 })
  unfolding publish_collection_cycle new_native_uuid_collection length_in_memory
  publish_collection_cycle-cancelled fuel m w w₁ w₂ s e o f c nz =
      ap (λ a. bind_built p (suc fuel) 0 m (after_open b (suc fuel) p.collection 0 a)) o
      ∙ ap (λ a. bind_built p (suc fuel) 0 m (after_find b (suc fuel) p.collection 0 a)) f
      ∙ ap (λ a. bind_built p (suc fuel) 0 m (built b a))
          (load_into_memory-cancelled b.loader fuel p.collection s w₂ e c nz)
