-- ===== src/Scheduler/Throttle/Stopped.antt =====
-- scheduler/throttle.go: `Queue` before and after `Stop`.
use publish_carousel.Prelude.{ℕ, ◌≡◌, refl, ◌≢◌, true, false, none}
use publish_carousel.Prelude.Int.{ℤ}
use publish_carousel.Scheduler.Throttle.{DefaultThrottle, new_throttle, stop_throttle, Waits, queue}

module _ {W : Type 0} (wait : Waits W) where
  -- Where a limiter never lets a cancelled context through, nothing gets through a throttle that was
  -- stopped, however often.
  queue-stop_throttle :
      (t : DefaultThrottle) (w : W)
      → ((rate : ℤ) (burst : ℕ) (v : W) → (wait rate burst true v).1 ≢ none)
      → ((queue wait (stop_throttle t) w).1 ≢ none)
        × (queue wait (stop_throttle (stop_throttle t)) w ≡ queue wait (stop_throttle t) w)
  unfolding queue stop_throttle
  queue-stop_throttle t w refuses = (refuses t.rate t.burst w, refl)

  -- A new throttle waits as long as a limiter of its own interval.
  queue-new_throttle :
      (interval : ℤ) (burst : ℕ) (w : W)
      → queue wait (new_throttle interval burst) w ≡ wait interval burst false w
  unfolding queue new_throttle
  queue-new_throttle interval burst w = refl
