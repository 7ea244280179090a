-- ===== src/Scheduler/Control/Abstract/Refine.antt =====
-- scheduler/scheduler.go: the calls on the scheduler implement the abstract one.
use publish_carousel.Scheduler.Mode.{set_state}
use publish_carousel.Scheduler.Cycle.{Cycle}
use publish_carousel.Scheduler.Control.{Scheduler, MetadataReadWriter}
use publish_carousel.Scheduler.Control.Toggle.{Request, disabling}
use publish_carousel.Scheduler.Control.Saved.{IsMemory}
use publish_carousel.Scheduler.Control.Abstract.{Abstract}

module _ {W : Type 0} (rw' : MetadataReadWriter W) where
  module _ (law : IsMemory rw') where
    -- The state that a disabling toggle sets.
    abbrev disabled_by : Request → Abstract → Abstract
    disabled_by r a = record a { state = set_state a.state (disabling r) }
