-- ===== src/Scheduler/Metadata.antt =====
-- scheduler/cycle.go: the metadata of a cycle, and what the cycle writes into it.
use publish_carousel.Prelude.{
  ℕ, String, List, [], Option, none, some, Error, if◌then◌else◌, ◌==◌, inc,
}
use publish_carousel.Prelude.Int.{ℤ}
use publish_carousel.Scheduler.States.{sort_texts}

-- The quotient num / den, before the rounding to a float64.
pub record Fraction : Type 0 where
  pub num : ℕ
  pub den : ℕ

abbrev pub zero_fraction : Fraction
zero_fraction = record { num = 0; den = 1 }

-- A `time.Time` is its count of nanoseconds.
abbrev pub Time : Type 0
Time = ℤ

pub record CycleMetadata : Type 0 where
  pub current_publish_uuid : String
  pub current_publish_ref : String
  pub current_publish_error : String
  pub errors : ℕ
  pub progress : Fraction
  pub state : List String
  pub completed : ℕ
  pub total : ℕ
  pub iteration : ℕ
  pub attempts : ℕ
  pub start_time : Option Time
  pub end_time : Option Time

-- `CycleMetadata{}`
abbrev pub blank_metadata : CycleMetadata
blank_metadata = record {
  current_publish_uuid = "";
  current_publish_ref = "";
  current_publish_error = "";
  errors = 0;
  progress = zero_fraction;
  state = [];
  completed = 0;
  total = 0;
  iteration = 0;
  attempts = 0;
  start_time = none;
  end_time = none;
}

-- The part of `updateProgress` that looks at the error.
unfoldable pub note_error : CycleMetadata → Option Error → CycleMetadata
note_error m none = record m { current_publish_error = "" }
note_error m (some e) = record m { errors = inc m.errors; current_publish_error = e }

unfoldable pub update_progress : String → String → Option Error → CycleMetadata → CycleMetadata
unfolding note_error
update_progress uuid tx_id error m =
    let n = note_error m error in
    record n {
      completed = inc n.completed;
      current_publish_uuid = uuid;
      current_publish_ref = tx_id;
      progress =
          if n.total == 0 then zero_fraction else record { num = inc n.completed; den = n.total };
    }

unfoldable pub update_state : List String → CycleMetadata → CycleMetadata
update_state states m = record m { state = sort_texts states }
