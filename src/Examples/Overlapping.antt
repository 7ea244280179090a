-- ===== src/Examples/Overlapping.antt =====
-- A `Shutdown` that comes while `Start` starts two cycles, and one that comes after it.
use publish_carousel.Prelude.{ℕ, ◌+◌, ◌≡◌, refl, ◌⊎◌, true, false}
use publish_carousel.Scheduler.Overlapping.{
  starting, started, unasked, done, Pair, Step, asks, stops_cycle, halts, locks, Runs, here, later,
}
use publish_carousel.Scheduler.Overlapping.Deadlock.{IsStuck, starting-IsStuck}
use publish_carousel.Scheduler.Overlapping.Ordered.{steps_left, started-done}

abbrev one_started : Pair
one_started = record {
  cycles = 2;
  running = true;
  locked = false;
  goroutines = 0;
  start_pc = starting 1;
  shutdown_pc = unasked;
}

starting-IsStuck_example : (k : ℕ) × (t : Pair) × Runs one_started k t × IsStuck t
starting-IsStuck_example = starting-IsStuck 1 one_started refl refl refl refl refl

abbrev all_started : Pair
all_started = record one_started { goroutines = 1; start_pc = started }

some_steps : (t : Pair) × Runs all_started 5 t
some_steps = (
  _,
  later (asks refl refl) (
      later (stops_cycle 1 refl)
        (later (stops_cycle 0 refl) (later (halts refl) (later (locks refl refl) here)))),
)

started-done_example :
    (5 + steps_left some_steps.0.cycles some_steps.0.shutdown_pc ≡ 7)
    × (((some_steps.0.shutdown_pc ≡ done)
          × (some_steps.0.running ≡ false)
          × (some_steps.0.goroutines ≡ 0))
        ⊎ ((u : Pair) × Step some_steps.0 u))
started-done_example = started-done some_steps.1 refl refl refl refl refl
