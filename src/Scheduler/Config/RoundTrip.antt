-- ===== src/Scheduler/Config/RoundTrip.antt =====
-- scheduler: the configuration that a cycle gives (`TransformToConfig`), and the cycle that
-- `NewCycle` makes from it.
use publish_carousel.Prelude.{
  String, ◌≡◌, refl, true, false, some, ok, err, is_blank, lowers_to, text_eq,
}
use publish_carousel.Prelude.Int.{ℤ}
use publish_carousel.Scheduler.Duration.{DurationText}
use publish_carousel.Scheduler.Cycle.{
  new_throttled_whole_collection_cycle, new_scaling_window_cycle, throttled_whole_collection_type,
}
use publish_carousel.Scheduler.Config.{
  check_durations, validate_type, validate, make_cycle, new_cycle, transform_to_config,
}

lowers_whole : lowers_to throttled_whole_collection_type "throttledwholecollection" ≡ true
unfolding lowers_to
lowers_whole = refl

module _ (d : DurationText) where
  -- A new whole-collection cycle with a name, a collection and an origin gives a configuration that
  -- `Validate` lets pass and from which `NewCycle` makes the same cycle again, whatever the default
  -- throttle, where its cool-down and its throttle are read back from their texts, and the text of
  -- the throttle is not empty.
  pub new_cycle-transform_to_config :
      (digest : String → String) (default_throttle : ℤ) (name collection origin : String)
      (cool_down throttle : ℤ)
      → d.parse_duration (d.duration_string cool_down) ≡ ok cool_down
      → d.parse_duration (d.duration_string throttle) ≡ ok throttle
      → is_blank name ≡ false
      → is_blank collection ≡ false
      → is_blank origin ≡ false
      → text_eq (d.duration_string throttle) "" ≡ false
      → let c =
          new_throttled_whole_collection_cycle digest d name collection origin cool_down throttle in
        new_cycle d digest default_throttle (transform_to_config d c) ≡ ok (some c)
  unfolding new_cycle make_cycle validate validate_type check_durations transform_to_config
      new_throttled_whole_collection_cycle
  new_cycle-transform_to_config digest default_throttle name collection origin cool_down throttle lc
        lt n c o t =
      rw (n, c, o, lowers_whole, t, lt, lc) refl

-- The configuration that a new scaling-window cycle gives, where its name and its collection are not
-- blank, leaves the origin out, so no cycle can be made from it: `Validate` refuses it for that.
validate-transform_scaling_window :
    (d : DurationText) (digest : String → String) (name collection origin : String)
    (time_window cool_down low high : ℤ)
    → is_blank name ≡ false
    → is_blank collection ≡ false
    → let c =
        new_scaling_window_cycle digest d name collection origin time_window cool_down low high in
      validate d (transform_to_config d c) ≡ err "Please provide a valid X-Origin-System-Id"
unfolding validate transform_to_config new_scaling_window_cycle is_blank
validate-transform_scaling_window d digest name collection origin time_window cool_down low high n
      c =
    rw (n, c) refl
