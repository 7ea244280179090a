-- ===== src/Scheduler/WholeCollection/Resume/Once.antt =====
-- A whole-collection cycle that is stopped and started again hands every UUID to its task once
-- (scheduler/cycle.go, native/in_memory_collection.go).
use mathlib.Core.List.{append-nil}
use publish_carousel.Prelude.{
  ℕ, ◌<◌, String, ◌≡◌, sym, ap, ◌∙◌, true, false, List, ◌++◌, Option, none, some, Error, ok, length,
  length-drop, arith, sign_bit, word_mod,
}
use publish_carousel.Native.InMemory.{InMemory, in_memory}
use publish_carousel.Native.Persist.{Store, read_from_s3}
use publish_carousel.Native.Load.{Loader, load_into_memory}
use publish_carousel.Scheduler.Metadata.{CycleMetadata}
use publish_carousel.Scheduler.Publish.{Publisher, Run, exit, publish_collection}
use publish_carousel.Scheduler.Publish.Order.{Logs, to_publish, publish_collection-log}
use publish_carousel.Scheduler.WholeCollection.Resume.{run-Ends, resume_loads_rest}

module _ {W : Type 0} (log : W → List String) where
  -- The last run of a list leaves nothing, so it has handed over all that was left.
  finished-log :
      (p : Publisher W InMemory) (fuel : ℕ) (r r' : Run W InMemory) (e : Option Error)
      → Logs p log
      → p.source ≡ in_memory
      → r.metadata.completed < word_mod
      → length r.rest.uuids < fuel
      → publish_collection p fuel r ≡ some (r', exit false e)
      → log r'.world ≡ log r.world ++ to_publish r.rest.uuids
  finished-log p fuel r r' e g src b f run =
      let (z, rest, c) = run-Ends p fuel r r' (exit false e) src b f run in
      sym (append-nil (log r'.world))
      ∙ ap (λ us. log r'.world ++ to_publish us) (sym rest)
      ∙ publish_collection-log p log g fuel r r' (exit false e) src run

  -- A cycle published the list in S3 from its start and was stopped on the way, with neither none nor
  -- all of the items completed. It is started again from that count, with a new context, in a world in which nothing else
  -- was handed to `Prepare`: it loads a collection, and publishes this to its end. `Prepare` was then
  -- called with each UUID of the list that is not blank once, in the order of the list.
  pub resume_publishes_once :
      {S B : Type 0} (p p' : Publisher W InMemory) (l : Loader W S B) (fuel load_fuel last_fuel : ℕ)
      (r r' again : Run W InMemory) (e e' : Option Error) (collection : String) (s s' : S)
      (w w' w'' : W) (store : Store W B) (it : InMemory) (m : CycleMetadata)
      → Logs p log
      → p.source ≡ in_memory
      → Logs p' log
      → p'.source ≡ in_memory
      → r.metadata.completed ≡ 0
      → length r.rest.uuids < fuel
      → length r.rest.uuids < last_fuel
      → length r.rest.uuids < sign_bit
      → publish_collection p fuel r ≡ some (r', exit true e)
      → 0 < r'.metadata.completed
      → r'.metadata.completed < length r.rest.uuids
      → l.store ≡ some store
      → read_from_s3 store collection w ≡ (w', ok r.rest.uuids)
      → log w' ≡ log r'.world
      → load_into_memory l load_fuel collection r'.metadata.completed s w
        ≡ some (w'', s', ok (it, none))
      → m.completed < word_mod
      → publish_collection p' last_fuel (record { world = w''; rest = it; metadata = m })
        ≡ some (again, exit false e')
      → log again.world ≡ log r.world ++ to_publish r.rest.uuids
  resume_publishes_once p p' l fuel load_fuel last_fuel r r' again e e' collection s s' w w' w''
        store it m g src g' src' z f lf b run pos lt st rd quiet load small last =
      let loaded =
        sym (
          resume_loads_rest p l fuel load_fuel r r' e collection s w w' store src z f b run pos lt
            st rd)
        ∙ load in
      let world : w' ≡ w'' = cc loaded in
      let rest : record {
        uuids = r'.rest.uuids;
        collection = collection;
        skip = r'.metadata.completed;
      }
          ≡ it =
        cc loaded in
      let uuids : r'.rest.uuids ≡ it.uuids = ap (λ (i : InMemory). i.uuids) rest in
      let (k, le, left, c) = run-Ends p fuel r r' (exit true e) src (omega arith) f run in
      let shorter : length it.uuids < last_fuel =
        omega (arith, lf, length-drop k r.rest.uuids, ap length (sym left ∙ uuids)) in
      finished-log p' last_fuel (record { world = w''; rest = it; metadata = m }) again e' g' src'
        small shorter last
      ∙ ap (λ v. log v ++ to_publish it.uuids) (sym world)
      ∙ ap (λ us. log w' ++ to_publish us) (sym uuids)
      ∙ ap (λ done. done ++ to_publish r'.rest.uuids) quiet
      ∙ publish_collection-log p log g fuel r r' (exit true e) src run
