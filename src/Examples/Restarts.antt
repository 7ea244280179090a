-- ===== src/Examples/Restarts.antt =====
-- A scheduler that is shut down, and one that restores its state, over a store in memory.
use publish_carousel.Prelude.{
  String, List, [], ◌∷◌, refl, none, Result, ok, err, if◌then◌else◌, text_eq, eq_iff, arith,
}
use publish_carousel.Scheduler.Metadata.{CycleMetadata, blank_metadata}
use publish_carousel.Scheduler.Cycle.{Cycle, set_metadata}
use publish_carousel.Scheduler.Control.{MetadataReadWriter}
use publish_carousel.Scheduler.Control.Saved.{IsMemory}
use publish_carousel.Scheduler.Control.Toggle.{manual}
use publish_carousel.Scheduler.Control.Life.{
  Call, adds, deletes, starts, shuts_down, restores, toggles,
}
use publish_carousel.Examples.Schedules.{idle_cycle}

-- The world gives what is stored for an ID.
abbrev pub Shelves : Type 0
Shelves = String → Result CycleMetadata

abbrev pub shelves : MetadataReadWriter Shelves
shelves = record {
  load_metadata = λ id w. (w, w id);
  write_metadata = λ id c m w. (λ j. if text_eq id j then ok m else w j, none);
}

pub shelves-IsMemory : IsMemory shelves
shelves-IsMemory = record {
  written = λ id c m w. ground (arith, eq_iff id id);
  apart = λ id j c m w h. ground (arith, h);
  steady = λ id j w. refl;
}

abbrev pub nothing : Shelves
nothing id = err "not found"

-- The cycle at a later tick.
abbrev moved : Cycle
moved = set_metadata (record blank_metadata { iteration = 3 }) (idle_cycle "c1")

-- A cycle is added, the scheduler is enabled, started and shut down, and the cycle deleted.
abbrev calls : List Call
calls =
    adds (idle_cycle "c1")
    ∷ toggles "true" manual
    ∷ starts
    ∷ shuts_down
    ∷ restores
    ∷ deletes "c1"
    ∷ []
