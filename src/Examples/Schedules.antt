-- ===== src/Examples/Schedules.antt =====
-- A scheduler with two cycles, and the goroutines of a cycle.
use publish_carousel.Prelude.{ℕ, String, ◌≡◌, [], ◌∷◌, none, err}
use publish_carousel.Prelude.Int.{pos}
use publish_carousel.Scheduler.Metadata.{blank_metadata}
use publish_carousel.Scheduler.Mode.{Mode, disabled}
use publish_carousel.Scheduler.Cycle.{Cycle, whole_collection}
use publish_carousel.Scheduler.Control.{Scheduler, MetadataReadWriter, new_scheduler}
use publish_carousel.Scheduler.Control.Toggle.{manual, parse_bool, or_false, toggle_handler}
use publish_carousel.Scheduler.Control.Life.{next_mode, new_scheduler-IsWell, toggle-next_mode}

abbrev pub idle_cycle : String → Cycle
idle_cycle id = record {
  cycle_id = id;
  cycle_name = "methode-whole-archive";
  cycle_type = "ThrottledWholeCollection";
  metadata = blank_metadata;
  db_collection = "methode";
  origin = "methode-web-pub";
  cool_down_text = "5m0s";
  cool_down = pos 300000000000;
  kind = whole_collection (pos 60000000000);
  contexts = 0;
  cancel = none;
  runs = [];
}

abbrev pub with_one : Mode → ℕ → Scheduler
with_one mode checkpoints = record {
  cycles = ("c1", idle_cycle "c1") ∷ [];
  state = record { current_state = mode; previous_state = disabled };
  default_throttle = pos 60000000000;
  checkpoints = checkpoints;
}

-- Nothing is stored.
abbrev forgetful : MetadataReadWriter ℕ
forgetful = record {
  load_metadata = λ id w. (w, err "not found");
  write_metadata = λ id c m w. (w, none);
}

toggle-next_mode_example :
    (toggle_handler forgetful "true" manual (new_scheduler (pos 1)) 0).0.state.current_state
    ≡ next_mode (or_false (parse_bool "true")) manual (new_scheduler (pos 1)).state.current_state
toggle-next_mode_example =
    toggle-next_mode forgetful "true" manual (new_scheduler (pos 1)) 0
      (new_scheduler-IsWell (pos 1))
