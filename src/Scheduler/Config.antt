-- ===== src/Scheduler/Config.antt =====
-- scheduler/config.go, and `NewCycle` and `TransformToConfig` of the cycles: the configuration of
-- a cycle, its checks, and the cycle that it describes.
pub mod Checks
pub mod RoundTrip
use publish_carousel.Prelude.{
  String, Bool, true, false, not, ◌&&◌, List, [], ◌∷◌, Option, none, some, Error, Result, ok, err,
  panic, ◌>>=◌, ◌>>◌, refuse_if, if◌then◌else◌, concat, is_blank, lowers_to, text_eq,
}
use publish_carousel.Prelude.Int.{ℤ}
use publish_carousel.Scheduler.Duration.{DurationText, or_zero}
use publish_carousel.Scheduler.Cycle.{
  Cycle, Kind, whole_collection, scaling_window, new_throttled_whole_collection_cycle,
  new_scaling_window_cycle,
}

pub record CycleConfig : Type 0 where
  pub name : String
  pub type : String
  pub origin : String
  pub collection : String
  pub cool_down : String
  pub throttle : String
  pub time_window : String
  pub minimum_throttle : String
  pub maximum_throttle : String

module _ (d : DurationText) where
  abbrev pub check_duration : String → String → Result ℤ → Result (Unit {0}) → Result (Unit {0})
  check_duration name duration (ok i) rest = rest
  check_duration name duration (err e) rest = err (
      concat (
        "Error in parsing duration for cycle " ∷ name ∷ ": Duration=" ∷ duration ∷ " err=" ∷ e ∷ "."
        ∷ []))
  check_duration name duration panic rest = panic

  unfoldable pub check_durations : String → List String → Result (Unit {0})
  check_durations name [] = ok tt
  check_durations name (duration ∷ ds) =
      check_duration name duration (d.parse_duration duration) (check_durations name ds)

  -- `if err := …; c.Throttle != "" && err != nil { return err }`
  abbrev pub check_throttle : CycleConfig → Result (Unit {0})
  check_throttle c =
      if text_eq c.throttle "" then ok tt else check_durations c.name (c.throttle ∷ [])

  -- The `switch` on the type.
  unfoldable pub validate_type : CycleConfig → Result (Unit {0})
  unfolding check_durations
  validate_type c =
      if lowers_to c.type "throttledwholecollection"
      then check_throttle c
      else if lowers_to c.type "scalingwindow"
      then check_durations c.name (c.time_window ∷ c.minimum_throttle ∷ c.maximum_throttle ∷ [])
      else err (concat ("Please provide a valid type for cycle " ∷ c.name ∷ []))

  unfoldable pub validate : CycleConfig → Result (Unit {0})
  validate c = do
    refuse_if (is_blank c.name) "Please provide a cycle name"
    refuse_if (is_blank c.collection) "Please provide a valid native collection"
    refuse_if (is_blank c.origin) "Please provide a valid X-Origin-System-Id"
    check_durations c.cool_down []
    validate_type c

  abbrev pub throttle_interval : ℤ → CycleConfig → ℤ
  throttle_interval default_throttle c =
      if text_eq c.throttle "" then default_throttle else or_zero (d.parse_duration c.throttle)

  -- `NewCycle` after the validation; the cycle is nil where no case of the `switch` fits.
  unfoldable pub make_cycle : (String → String) → ℤ → CycleConfig → Option Cycle
  unfolding new_throttled_whole_collection_cycle new_scaling_window_cycle
  make_cycle digest default_throttle c =
      let cool_down = or_zero (d.parse_duration c.cool_down) in
      if lowers_to c.type "throttledwholecollection"
      then some (
          new_throttled_whole_collection_cycle digest d c.name c.collection c.origin cool_down
            (throttle_interval default_throttle c))
      else if lowers_to c.type "scalingwindow"
      then some (
          new_scaling_window_cycle digest d c.name c.collection c.origin
            (or_zero (d.parse_duration c.time_window)) cool_down
            (or_zero (d.parse_duration c.minimum_throttle))
            (or_zero (d.parse_duration c.maximum_throttle)))
      else none

  unfoldable pub new_cycle : (String → String) → ℤ → CycleConfig → Result (Option Cycle)
  new_cycle digest default_throttle c = do validate c; ok (make_cycle digest default_throttle c)

  abbrev pub config_of_kind : Kind → Cycle → CycleConfig
  config_of_kind (whole_collection throttle) c = record {
    name = c.cycle_name;
    type = c.cycle_type;
    origin = c.origin;
    collection = c.db_collection;
    cool_down = c.cool_down_text;
    throttle = d.duration_string throttle;
    time_window = "";
    minimum_throttle = "";
    maximum_throttle = "";
  }
  config_of_kind (scaling_window time_window min_throttle max_throttle) c = record {
    name = c.cycle_name;
    type = c.cycle_type;
    origin = "";
    collection = c.db_collection;
    cool_down = c.cool_down_text;
    throttle = "";
    time_window = d.duration_string time_window;
    minimum_throttle = d.duration_string min_throttle;
    maximum_throttle = d.duration_string max_throttle;
  }

  unfoldable pub transform_to_config : Cycle → CycleConfig
  transform_to_config c = config_of_kind c.kind c

-- `combineConfigErrors`: the messages, the last one first.
unfoldable pub combine_messages : String → List Error → String
combine_messages msg [] = msg
combine_messages msg (e ∷ es) = combine_messages (concat ("\"" ∷ e ∷ "\" " ∷ msg ∷ [])) es

unfoldable pub combine_config_errors : List Error → Option Error
unfolding combine_messages
combine_config_errors [] = none
combine_config_errors (e ∷ es) = some (combine_messages "" (e ∷ es))
