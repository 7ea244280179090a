-- ===== src/Scheduler/Cycle.antt =====
-- scheduler/cycle.go, throttled_whole_collection_cycle.go, scaling_window_cycle.go and
-- time_windowed_cycle.go: the cycle object, and the methods that the scheduler calls.
pub mod Runs
use Prim.Native.String.{◌++◌ as append}
use publish_carousel.Prelude.{
  ℕ, suc, ◌+◌, String, Bool, true, false, not, List, [], ◌∷◌, Option, none, some, if◌then◌else◌,
  ◌==◌, keep,
}
use publish_carousel.Prelude.Int.{ℤ}
use publish_carousel.Scheduler.Duration.{DurationText}
use publish_carousel.Scheduler.Metadata.{CycleMetadata, blank_metadata, update_state}
use publish_carousel.Scheduler.States.{starting_state, stopped_state}

-- The two types that implement `Cycle`, with the fields of their own: the throttle's interval, or
-- the time window and the least and the greatest throttle.
pub data Kind : Type 0 where
  whole_collection : ℤ → Kind
  scaling_window : ℤ → ℤ → ℤ → Kind

-- Each call of `Start` makes a context, numbered from 0, and a goroutine that runs until that
-- context is cancelled or its publishing ends by itself. `cancel` is the context whose cancel
-- function the cycle holds; `runs` are the contexts that were not cancelled, the latest first.
pub record Cycle : Type 0 where
  pub cycle_id : String
  pub cycle_name : String
  pub cycle_type : String
  pub metadata : CycleMetadata
  pub db_collection : String
  pub origin : String
  pub cool_down_text : String
  pub cool_down : ℤ
  pub kind : Kind
  pub contexts : ℕ
  pub cancel : Option ℕ
  pub runs : List ℕ

abbrev pub throttled_whole_collection_type : String
throttled_whole_collection_type = "ThrottledWholeCollection"

-- `newCycleID`: `digest` gives the first 16 hexadecimal digits of the SHA-256 of a text.
unfoldable pub new_cycle_id : (String → String) → String → String → String
new_cycle_id digest name db_collection = digest (append name db_collection)

unfoldable pub new_abstract_cycle :
    (String → String) → DurationText → String → String → String → String → ℤ → Kind → Cycle
unfolding new_cycle_id
new_abstract_cycle digest d name cycle_type db_collection origin cool_down kind = record {
  cycle_id = new_cycle_id digest name db_collection;
  cycle_name = name;
  cycle_type = cycle_type;
  metadata = update_state (stopped_state ∷ []) blank_metadata;
  db_collection = db_collection;
  origin = origin;
  cool_down_text = d.duration_string cool_down;
  cool_down = cool_down;
  kind = kind;
  contexts = 0;
  cancel = none;
  runs = [];
}

unfoldable pub new_throttled_whole_collection_cycle :
    (String → String) → DurationText → String → String → String → ℤ → ℤ → Cycle
unfolding new_abstract_cycle
new_throttled_whole_collection_cycle digest d name db_collection origin cool_down throttle =
    new_abstract_cycle digest d name throttled_whole_collection_type db_collection origin cool_down
      (whole_collection throttle)

unfoldable pub new_scaling_window_cycle :
    (String → String) → DurationText → String → String → String → ℤ → ℤ → ℤ → ℤ → Cycle
unfolding new_abstract_cycle
new_scaling_window_cycle digest d name db_collection origin time_window cool_down min_throttle
      max_throttle =
    new_abstract_cycle digest d name "ScalingWindow" db_collection origin cool_down
      (scaling_window time_window min_throttle max_throttle)

-- `Start` of both types.
unfoldable pub start : Cycle → Cycle
start c = record c {
  cancel = some c.contexts;
  contexts = suc c.contexts;
  runs = c.contexts ∷ c.runs;
  metadata = update_state (starting_state ∷ []) c.metadata;
}

-- Calling a cancel function cancels its context; a second call does nothing.
abbrev pub cancel_run : Option ℕ → List ℕ → List ℕ
cancel_run none runs = runs
cancel_run (some x) runs = keep (λ r. not (r == x)) runs

unfoldable pub stop : Cycle → Cycle
stop c = record c {
  runs = cancel_run c.cancel c.runs;
  metadata = update_state (stopped_state ∷ []) c.metadata;
}

unfoldable pub set_metadata : CycleMetadata → Cycle → Cycle
set_metadata m c = record c { metadata = m }

unfoldable pub reset : Cycle → Cycle
unfolding stop set_metadata
reset c = set_metadata blank_metadata (stop c)

-- The type switch on `*ThrottledWholeCollectionCycle`.
abbrev pub is_whole_collection : Cycle → Bool
is_whole_collection c = elim c.kind [ whole_collection t ↦ true | scaling_window w lo hi ↦ false ]
