-- ===== src/Scheduler/Control/Checkpoint.antt =====
-- scheduler/checkpoint_handler.go: the goroutine that saves the metadata at each tick, and what a
-- scheduler restores after it.
use publish_carousel.Prelude.{Bool, true, false, List, [], ◌∷◌}
use publish_carousel.Scheduler.Cycle.{Cycle}
use publish_carousel.Scheduler.Control.{
  CycleMap, Scheduler, MetadataReadWriter, save_cycle_metadata,
}

-- What the `select` of the goroutine receives: a tick, with the cycles that the function given to
-- `start` reads under the lock, or the stop.
pub data Signal : Type 0 where
  ticks : CycleMap → Signal
  stops : Signal

-- No tick is received from here on: the process ends at once, or between the stop and what the
-- shutdown saves.
abbrev pub IsEnd : List Signal → Type 0
IsEnd [] = Unit
IsEnd (stops ∷ rest) = Unit
IsEnd (ticks m ∷ rest) = ⊥

module _ {W : Type 0} (rw' : MetadataReadWriter W) where
  -- The loop of `start`, with the function that `Start` of the scheduler gives it; `true` where the
  -- goroutine has returned.
  unfoldable pub checkpoint_loop : List Signal → W → W × Bool
  unfolding save_cycle_metadata
  checkpoint_loop [] w = (w, false)
  checkpoint_loop (ticks m ∷ rest) w = checkpoint_loop rest (save_cycle_metadata rw' m w)
  checkpoint_loop (stops ∷ rest) w = (w, true)
