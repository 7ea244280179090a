-- ===== src/Start/Restart.antt =====
-- main.go: a program that is stopped by a signal and started again goes on with its cycles.
use publish_carousel.Scheduler.Mode.{new_scheduler_state, set_state, stopped}
use publish_carousel.Scheduler.Cycle.{Cycle}
use publish_carousel.Scheduler.Control.{Scheduler, MetadataReadWriter}

module _ {W : Type 0} (rw' : MetadataReadWriter W) where
  -- The scheduler between the toggles and the start.
  abbrev enabled : Scheduler → Scheduler
  enabled t = record t { state = set_state new_scheduler_state stopped }
