-- ===== src/Scheduler/Throttle/Json.antt =====
-- scheduler/throttle.go: reading back the JSON of a throttle.
use publish_carousel.Prelude.{◌≡◌, refl, ok}
use publish_carousel.Scheduler.Duration.{DurationText}
use publish_carousel.Scheduler.Throttle.{
  DefaultThrottle, lookup_text, marshal_throttle, unmarshal_throttle,
}

-- The JSON of a throttle, read into any other, sets its interval and nothing else, where the
-- interval is read back from its text.
pub unmarshal_throttle-marshal :
    (d : DurationText) (t u : DefaultThrottle)
    → d.parse_duration (d.duration_string t.interval) ≡ ok t.interval
    → unmarshal_throttle d u (ok (marshal_throttle d t)) ≡ ok (record u { interval = t.interval })
unfolding unmarshal_throttle marshal_throttle lookup_text
unmarshal_throttle-marshal d t u law = rw law refl
