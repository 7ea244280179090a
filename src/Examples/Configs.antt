-- ===== src/Examples/Configs.antt =====
-- Configurations, throttles and their texts.
use publish_carousel.Prelude.{
  ℕ, ◌↔◌, String, ◌≡◌, refl, some, ok, err, is_blank, text_eq, if◌then◌else◌, lowers_to,
}
use publish_carousel.Prelude.Int.{ℤ, pos, quot}
use publish_carousel.Scheduler.Duration.{DurationText}
use publish_carousel.Scheduler.Cycle.{new_throttled_whole_collection_cycle}
use publish_carousel.Scheduler.Config.{
  CycleConfig, check_durations, validate_type, validate, new_cycle, transform_to_config,
}
use publish_carousel.Scheduler.Config.Checks.{IsAccepted, validate_iff}
use publish_carousel.Scheduler.Config.RoundTrip.{new_cycle-transform_to_config}
use publish_carousel.Scheduler.Throttle.{determine_rate_interval}

-- Every duration here is one minute, whose text is "1m0s".
abbrev pub minute : ℤ
minute = pos 60000000000

abbrev pub all_minutes : DurationText
all_minutes = record {
  duration_string = λ i. "1m0s";
  parse_duration = λ text. if text_eq text "soon" then err "invalid duration" else ok minute;
}

abbrev pub archive : CycleConfig
archive = record {
  name = "methode-whole-archive";
  type = "ThrottledWholeCollection";
  origin = "methode-web-pub";
  collection = "methode";
  cool_down = "1m";
  throttle = "1m";
  time_window = "";
  minimum_throttle = "";
  maximum_throttle = "";
}

pub archive_valid : validate all_minutes archive ≡ ok tt
unfolding validate validate_type check_durations is_blank lowers_to
archive_valid = refl

validate_iff_example : (validate all_minutes archive ≡ ok tt) ↔ IsAccepted all_minutes archive
validate_iff_example = validate_iff all_minutes archive

abbrev digest : String → String
digest text = "0123456789abcdef"

new_cycle-transform_to_config_example :
    let c =
      new_throttled_whole_collection_cycle digest all_minutes "archive" "methode" "cct" minute
        minute in
    new_cycle all_minutes digest (pos 5) (transform_to_config all_minutes c) ≡ ok (some c)
unfolding is_blank
new_cycle-transform_to_config_example =
    new_cycle-transform_to_config all_minutes digest (pos 5) "archive" "methode" "cct" minute minute
      refl refl refl refl refl refl

-- An hour between a second and a minute, for 120 publishes: 30 seconds each.
abbrev hour : ℕ
hour = 3600000000000

thirty_seconds :
    determine_rate_interval (pos hour) (pos 1000000000) minute 120 ≡ ok (pos 30000000000)
unfolding determine_rate_interval quot
thirty_seconds = refl
