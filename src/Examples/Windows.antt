-- ===== src/Examples/Windows.antt =====
-- A scaling-window cycle over a list in place of a cursor.
use publish_carousel.Prelude.{
  ℕ, ◌+◌, ◌≡◌, refl, [], ◌∷◌, Option, none, some, ok, if◌then◌else◌, is_blank,
}
use publish_carousel.Prelude.Int.{pos, quot}
use publish_carousel.Examples.Publish.{article, three}
use publish_carousel.Native.Batch.{compute_batchsize}
use publish_carousel.Native.InMemory.{InMemory, in_memory, next_in_memory, length_in_memory}
use publish_carousel.Tasks.{Task}
use publish_carousel.Scheduler.Duration.{DurationText}
use publish_carousel.Scheduler.Metadata.{blank_metadata, update_progress}
use publish_carousel.Scheduler.Publish.{Run, publish_step, publish_collection}
use publish_carousel.Scheduler.Throttle.{stop_throttle, new_capped_dynamic_throttle}
use publish_carousel.Scheduler.TimeWindow.{
  Surroundings, WindowCycle, go_on, Iterated, new_window, publish_collection_cycle, start,
  start_rounds,
}

abbrev printer : DurationText
printer = record { duration_string = λ i. "1m0s"; parse_duration = λ text. ok (pos 60000000000) }

-- The world is the time.
abbrev counting_task : Task ℕ
counting_task = record {
  prepare = λ collection uuid w. (w + 1, ok (article, "tid_1_carousel_2"));
  execute = λ uuid content origin tx w. (w, ok tt);
}

abbrev env : Surroundings ℕ InMemory
env = record {
  open_db = λ w. (w, none);
  find_uuids_in_time_window = λ collection s e batch w. (w, ok three);
  source = in_memory;
  ctx_err = λ w. none;
  task = counting_task;
  queue = λ t w. if t.cancelled then w else w + 10;
  now = λ w. pos w;
  sleep = λ i w. w + 300;
}

abbrev recent : WindowCycle
recent = record {
  collection = "methode";
  origin = "cct";
  time_window = pos 40;
  cool_down = pos 300;
  minimum_throttle = pos 1;
  maximum_throttle = pos 20;
}

abbrev one_round : Option (Iterated ℕ)
one_round = start printer env recent 5 1 blank_metadata 1000

abbrev three_runs : Run ℕ InMemory
three_runs = record {
  world = 1000;
  rest = three;
  metadata = new_window (pos 960) (pos 1000) 3 blank_metadata;
}

abbrev done : Run ℕ InMemory
done = record {
  world = 1043;
  rest = record { uuids = []; collection = "methode"; skip = 0 };
  metadata = record {
    current_publish_uuid = "";
    current_publish_ref = "";
    current_publish_error = "";
    errors = 0;
    progress = record { num = 4; den = 3 };
    state = "running" ∷ [];
    completed = 4;
    total = 3;
    iteration = 0;
    attempts = 1;
    start_time = some (pos 960);
    end_time = some (pos 1000);
  };
}

abbrev after_one : Iterated ℕ
after_one = record { world = 1043; metadata = done.metadata; flow = go_on (pos 1043) }

one_round_lem : start printer env recent 5 1 blank_metadata 1000 ≡ some after_one
unfolding start start_rounds publish_collection_cycle compute_batchsize new_window
    new_capped_dynamic_throttle quot publish_collection publish_step next_in_memory length_in_memory
    is_blank update_progress stop_throttle
one_round_lem = refl
