-- ===== src/Scheduler/Throttle.antt =====
-- scheduler/throttle.go: the intervals of the throttles, and the JSON of a throttle.
pub mod Bounds
pub mod Json
pub mod Stopped
use publish_carousel.Prelude.{
  ℕ, String, Bool, true, false, List, [], ◌∷◌, Option, none, some, Error, Result, ok, err, panic,
  ◌>>=◌, if◌then◌else◌, as_int, text_eq,
}
use publish_carousel.Prelude.Int.{ℤ, ltb_ℤ, quot, is_zero}
use publish_carousel.Scheduler.Duration.{DurationText}

-- The limiter of `golang.org/x/time/rate` has the rate and the burst it was made with.
pub record DefaultThrottle : Type 0 where
  pub interval : ℤ
  pub rate : ℤ
  pub burst : ℕ
  pub cancelled : Bool

unfoldable pub new_throttle : ℤ → ℕ → DefaultThrottle
new_throttle interval burst = record {
  interval = interval;
  rate = interval;
  burst = burst;
  cancelled = false;
}

unfoldable pub stop_throttle : DefaultThrottle → DefaultThrottle
stop_throttle t = record t { cancelled = true }

-- `Wait` of a limiter with this rate and burst, in a context that is cancelled or is not.
abbrev pub Waits : Type 0 → Type 0
Waits W = ℤ → ℕ → Bool → W → W × Option Error

-- `Queue`
unfoldable pub queue : {W : Type 0} → Waits W → DefaultThrottle → W → W × Option Error
queue wait t w = wait t.rate t.burst t.cancelled w

-- `interval.Nanoseconds() / int64(publishes)`
abbrev pub publish_delay : ℤ → ℕ → Result ℤ
publish_delay interval publishes =
    if is_zero (as_int publishes) then panic else ok (quot interval (as_int publishes))

-- The chain of tests that keeps the delay between the two throttles.
abbrev pub cap_delay : ℤ → ℤ → ℤ → ℤ
cap_delay min_throttle max_throttle delay =
    if ltb_ℤ delay min_throttle
    then min_throttle
    else if ltb_ℤ max_throttle delay
    then max_throttle
    else delay

unfoldable pub determine_rate_interval : ℤ → ℤ → ℤ → ℕ → Result ℤ
determine_rate_interval interval min_throttle max_throttle publishes = do
  delay ← publish_delay interval publishes
  ok (cap_delay min_throttle max_throttle delay)

unfoldable pub new_capped_dynamic_throttle : ℤ → ℤ → ℤ → ℕ → ℕ → Result DefaultThrottle
unfolding determine_rate_interval new_throttle
new_capped_dynamic_throttle interval min_throttle max_throttle publishes burst = do
  rate_interval ← determine_rate_interval interval min_throttle max_throttle publishes
  ok (new_throttle rate_interval burst)

unfoldable pub new_dynamic_throttle : ℤ → ℤ → ℕ → ℕ → Result DefaultThrottle
unfolding new_throttle
new_dynamic_throttle interval minimum_throttle publishes burst = do
  delay ← publish_delay interval publishes
  ok (new_throttle (if ltb_ℤ delay minimum_throttle then minimum_throttle else interval) burst)

-- A JSON object of texts, as `map[string]string`.
abbrev pub TextMap : Type 0
TextMap = List (String × String)

unfoldable pub lookup_text : String → TextMap → Option String
lookup_text k [] = none
lookup_text k ((j, v) ∷ m) = if text_eq j k then some v else lookup_text k m

module _ (d : DurationText) where
  unfoldable pub marshal_throttle : DefaultThrottle → TextMap
  marshal_throttle t = ("interval", d.duration_string t.interval) ∷ []

  abbrev set_interval : DefaultThrottle → Option String → Result DefaultThrottle
  set_interval t none = err "no interval value, cannot be unmarshalled to DefaultThrottle"
  set_interval t (some interval) = do
    duration ← d.parse_duration interval
    ok (record t { interval = duration })

  -- From what the JSON decoder made of the text.
  unfoldable pub unmarshal_throttle : DefaultThrottle → Result TextMap → Result DefaultThrottle
  unfolding lookup_text
  unmarshal_throttle t decoded = do m ← decoded; set_interval t (lookup_text "interval" m)
