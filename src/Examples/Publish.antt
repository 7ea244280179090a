-- ===== src/Examples/Publish.antt =====
-- The publishing loop and a whole-collection cycle, over a small collection.
use publish_carousel.Prelude.{
  ℕ, String, ◌≡◌, ◌⊎◌, refl, true, List, [], ◌∷◌, ◌++◌, Option, none, some, Error, ok, arith,
  length, ltb, if◌then◌else◌, is_blank,
}
use publish_carousel.Native.Content.{Content}
use publish_carousel.Native.InMemory.{InMemory, in_memory, next_in_memory}
use publish_carousel.Tasks.{Task}
use publish_carousel.Scheduler.Metadata.{blank_metadata, update_progress}
use publish_carousel.Scheduler.Publish.{
  Publisher, Run, Exit, exit, publish_step, publish_collection,
}
use publish_carousel.Scheduler.Publish.Total.{Ends, publish_collection-Ends}
use publish_carousel.Scheduler.Publish.Order.{Logs, to_publish, publish_collection-log}
use publish_carousel.Scheduler.WholeCollection.{Iterated, publish_built}
use publish_carousel.Scheduler.WholeCollection.Outcome.{
  EndsEmpty, EndsFull, publish_built-EndsIteration,
}

abbrev pub article : Content
article = record { body = none; content_type = "application/json"; origin_system_id = "" }

-- The world is the list of the UUIDs that were prepared.
abbrev pub logging_task : Task (List String)
logging_task = record {
  prepare = λ collection uuid w. (w ++ uuid ∷ [], ok (article, "tid_1_carousel_2"));
  execute = λ uuid content origin tx w. (w, ok tt);
}

-- The context is cancelled once `n` UUIDs were prepared.
abbrev pub cancelled_after : ℕ → List String → Option Error
cancelled_after n w = if ltb (length w) n then none else some "context canceled"

abbrev pub publisher : ℕ → Publisher (List String) InMemory
publisher n = record {
  queue = λ w. w;
  ctx_err = cancelled_after n;
  source = in_memory;
  task = logging_task;
  collection = "methode";
  origin = "cct";
}

abbrev pub three : InMemory
three = record { uuids = "a" ∷ "b" ∷ "c" ∷ []; collection = "methode"; skip = 0 }

abbrev pub first_run : Run (List String) InMemory
first_run = record { world = []; rest = three; metadata = blank_metadata }

abbrev logs : Logs (publisher 2) (λ w. w)
logs = record {
  queue_keeps = λ w. refl;
  prepare_logs = λ c uuid w. refl;
  execute_keeps = λ uuid c o tx w. refl;
}

publish_collection-Ends_example :
    (r : Run (List String) InMemory) × (x : Exit) × (publish_collection (publisher 9) 4 first_run
      ≡ some (r, x))
    × Ends ("a" ∷ "b" ∷ "c" ∷ []) blank_metadata r x
publish_collection-Ends_example =
    publish_collection-Ends (publisher 9) 4 first_run ("a" ∷ "b" ∷ "c" ∷ []) refl refl (omega arith)
      (omega arith)

-- Two of the three UUIDs are published, and the context is cancelled.
abbrev pub stopped_run : Run (List String) InMemory
stopped_run = record {
  world = "a" ∷ "b" ∷ [];
  rest = record { uuids = "c" ∷ []; collection = "methode"; skip = 0 };
  metadata = record {
    current_publish_uuid = "b";
    current_publish_ref = "tid_1_carousel_2";
    current_publish_error = "";
    errors = 0;
    progress = record { num = 0; den = 1 };
    state = [];
    completed = 2;
    total = 0;
    iteration = 0;
    attempts = 0;
    start_time = none;
    end_time = none;
  };
}

pub two_of_three :
    publish_collection (publisher 2) 4 first_run
    ≡ some (stopped_run, exit true (some "context canceled"))
unfolding publish_collection publish_step next_in_memory is_blank update_progress
two_of_three = refl

publish_collection-log_example :
    "a" ∷ "b" ∷ to_publish ("c" ∷ []) ≡ to_publish ("a" ∷ "b" ∷ "c" ∷ [])
publish_collection-log_example =
    publish_collection-log (publisher 2) (λ w. w) logs 4 first_run stopped_run
      (exit true (some "context canceled")) refl two_of_three

publish_built-EndsIteration_example :
    (r : Iterated (List String)) × (publish_built (publisher 9) 4 0 blank_metadata ([], ok three)
      ≡ some r)
    × (EndsEmpty 0 three blank_metadata [] r ⊎ EndsFull (publisher 9) 4 0 three blank_metadata [] r)
publish_built-EndsIteration_example =
    publish_built-EndsIteration (publisher 9) 4 0 three blank_metadata [] refl (omega arith)
      (omega arith)
