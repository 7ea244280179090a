-- ===== src/Examples/Resumed.antt =====
-- A cycle that is stopped after two of three UUIDs, and started again with the list in S3.
use publish_carousel.Prelude.{
  ℕ, String, ◌≡◌, refl, false, List, [], ◌∷◌, Option, none, some, ok, arith, is_blank,
}
use publish_carousel.Native.InMemory.{InMemory, next_in_memory}
use publish_carousel.Native.Load.{load_into_memory}
use publish_carousel.Native.Persist.{read_from_s3}
use publish_carousel.Scheduler.Metadata.{blank_metadata, update_progress}
use publish_carousel.Scheduler.Publish.{Run, Exit, exit, publish_step, publish_collection}
use publish_carousel.Scheduler.Publish.Order.{Logs, to_publish}
use publish_carousel.Scheduler.WholeCollection.Resume.{resume_loads_rest}
use publish_carousel.Scheduler.WholeCollection.Resume.Once.{resume_publishes_once}
use publish_carousel.Examples.Publish.{publisher, first_run, stopped_run, two_of_three}
use publish_carousel.Examples.Loading.{store, loader, nothing_loaded}

abbrev logged : (n : ℕ) → Logs (publisher n) (λ w. w)
logged n = record {
  queue_keeps = λ w. refl;
  prepare_logs = λ c uuid w. refl;
  execute_keeps = λ uuid c o tx w. refl;
}

-- What is loaded when the cycle is started again.
abbrev the_rest : InMemory
the_rest = record { uuids = "c" ∷ []; collection = "methode"; skip = 2 }

abbrev second_run : Run (List String) InMemory
second_run = record { world = "a" ∷ "b" ∷ []; rest = the_rest; metadata = blank_metadata }

abbrev run_of : Option (Run (List String) InMemory × Exit) → Run (List String) InMemory
run_of none = second_run
run_of (some (r, x)) = r

abbrev last_run : Run (List String) InMemory
last_run = run_of (publish_collection (publisher 9) 4 second_run)

last_of_three : publish_collection (publisher 9) 4 second_run ≡ some (last_run, exit false none)
unfolding publish_collection publish_step next_in_memory is_blank update_progress
last_of_three = refl

rest_loaded :
    load_into_memory (loader none) 1 "methode" 2 nothing_loaded ("a" ∷ "b" ∷ [])
    ≡ some ("a" ∷ "b" ∷ [], nothing_loaded, ok (the_rest, none))
unfolding read_from_s3
rest_loaded =
    resume_loads_rest (publisher 2) (loader none) 4 1 first_run stopped_run
      (some "context canceled") "methode" nothing_loaded ("a" ∷ "b" ∷ []) ("a" ∷ "b" ∷ []) store
      refl refl (omega arith) (omega arith) two_of_three (omega arith) (omega arith) refl refl

resume_publishes_once_example : last_run.world ≡ to_publish ("a" ∷ "b" ∷ "c" ∷ [])
unfolding read_from_s3
resume_publishes_once_example =
    resume_publishes_once (λ w. w) (publisher 2) (publisher 9) (loader none) 4 1 4 first_run
      stopped_run last_run (some "context canceled") none "methode" nothing_loaded nothing_loaded
      ("a" ∷ "b" ∷ []) ("a" ∷ "b" ∷ []) ("a" ∷ "b" ∷ []) store the_rest blank_metadata (logged 2)
      refl (logged 9) refl refl (omega arith) (omega arith) (omega arith) two_of_three (omega arith)
      (omega arith) refl refl refl rest_loaded (omega arith) last_of_three
