-- ===== src/Scheduler/Duration.antt =====
-- Durations (`time.Duration`) are counts of nanoseconds. Their texts belong to the package `time`:
-- `duration_string` prints one and `parse_duration` reads one.
use publish_carousel.Prelude.{String, Result, ok, err, panic}
use publish_carousel.Prelude.Int.{ℤ, pos}

pub record DurationText : Type 0 where
  pub duration_string : ℤ → String
  pub parse_duration : String → Result ℤ

-- `d, _ := time.ParseDuration(text)`: the duration is 0 beside an error.
abbrev pub or_zero : Result ℤ → ℤ
or_zero (ok d) = d
or_zero (err e) = pos 0
or_zero panic = pos 0
