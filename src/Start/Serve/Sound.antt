-- ===== src/Start/Serve/Sound.antt =====
-- main.go: what every request, toggle and signal keeps of the scheduler.
use publish_carousel.Prelude.{
  inl, inr, String, ◌≡◌, ◌≢◌, refl, not, ◌&&◌, List, [], ◌∷◌, panic, if◌then◌else◌, Bool-cases,
  is_nil,
}
use publish_carousel.Prelude.Int.{ℤ}
use publish_carousel.Scheduler.Duration.{DurationText}
use publish_carousel.Scheduler.Mode.{is_enabled, is_running, was_automatically_disabled}
use publish_carousel.Scheduler.Cycle.{Cycle, start, stop, reset}
use publish_carousel.Scheduler.Control.{
  Scheduler, MetadataReadWriter, new_scheduler, delete_cycle, shutdown, start_scheduler,
}
use publish_carousel.Scheduler.Control.Toggle.{Request, toggle_handler, parse_bool, or_false}
use publish_carousel.Scheduler.Control.Keys.{IsKeyed}
use publish_carousel.Scheduler.Control.Life.{
  new_scheduler-IsWell, start_scheduler-IsWell, shutdown-IsWell, shutdown-ne-panic, toggle-IsWell,
}
use publish_carousel.Scheduler.Control.Saved.{IsDistinct}
use publish_carousel.Scheduler.Control.Abstract.Sound.{
  IsSound, start_scheduler-IsTidy, shutdown-IsTidy, toggle-IsTidy,
}
use publish_carousel.Resources.Control.{shutdown_handler, start_handler}
use publish_carousel.Resources.Cycles.{delete_handler}
use publish_carousel.Resources.Health.{unhealthy_clusters}
use publish_carousel.Resources.Health.Channel.{Collector}
use publish_carousel.Start.{on_signal}
use publish_carousel.Start.Serve.{
  Event, reads, creates, deletes, sets_throttle, resumes, stops, resets, starts, shuts_down, checks,
  toggles, signals, serve_one, serve,
}
use publish_carousel.Start.Serve.Handlers.{
  sound, tidy, on_cycle-IsSound, delete_cycle-IsSound, deleted-IsSound, create_handler-IsSound,
  set_cycle_throttle-IsSound,
}

start_id : (c : Cycle) → (start c).cycle_id ≡ c.cycle_id
unfolding start
start_id c = refl

stop_id : (c : Cycle) → (stop c).cycle_id ≡ c.cycle_id
unfolding stop
stop_id c = refl

reset_id : (c : Cycle) → (reset c).cycle_id ≡ c.cycle_id
unfolding reset
reset_id c = refl

start_scheduler-IsSound : (s : Scheduler) → IsSound s → IsSound (start_scheduler s).0
start_scheduler-IsSound s v =
    sound (start_scheduler-IsWell s v.well) (start_scheduler-IsTidy s (tidy v))

new_scheduler-IsSound : (d : ℤ) → IsSound (new_scheduler d)
unfolding new_scheduler
new_scheduler-IsSound d = sound (new_scheduler-IsWell d) (tt, tt)

module _ {W : Type 0} (rw' : MetadataReadWriter W) where
  shutdown-IsSound : (s : Scheduler) (w : W) → IsSound s → IsSound (shutdown rw' s w).0
  shutdown-IsSound s w v = sound (shutdown-IsWell rw' s w v.well) (shutdown-IsTidy rw' s w (tidy v))

  toggle_handler-IsSound :
      (value : String) (r : Request) (s : Scheduler) (w : W)
      → IsSound s
      → IsSound (toggle_handler rw' value r s w).0
  unfolding toggle_handler
  toggle_handler-IsSound value r s w v =
      sound (toggle-IsWell rw' (or_false (parse_bool value)) r s w v.well)
        (toggle-IsTidy rw' (or_false (parse_bool value)) r s w (tidy v))

  unhealthy_clusters-IsSound :
      (to_json : List String → String) (c : Collector) (s : Scheduler) (w : W)
      → IsSound s
      → IsSound (unhealthy_clusters to_json rw' c s w).0
  unfolding unhealthy_clusters
  unhealthy_clusters-IsSound to_json c s w v = elim (Bool-cases (is_nil c.unhealthy_services)) [
    | inl healthy ↦
        elim (Bool-cases (
          not (is_running s.state)
          && is_enabled s.state
          && not (was_automatically_disabled s.state))) [
            | inl e ↦ rw (healthy, e) (start_scheduler-IsSound s v)
            | inr e ↦ rw (healthy, e) v
          ]
    | inr ill ↦ elim (Bool-cases (is_running s.state)) [
      | inl runs ↦ rw (ill, runs) (shutdown-IsSound s w v)
      | inr idle ↦ rw (ill, idle) v
    ]
  ]

  module _ (d : DurationText) (digest : String → String) (to_json : List String → String) where
    serve_one-IsSound :
        (e : Event) (s : Scheduler) (w : W)
        → IsSound s
        → IsSound (serve_one rw' d digest to_json e (s, w)).0
    unfolding serve_one delete_handler start_handler shutdown_handler on_signal
    serve_one-IsSound reads s w v = v
    serve_one-IsSound (creates body) s w v = create_handler-IsSound d digest body s v
    serve_one-IsSound (deletes id) s w v =
        deleted-IsSound (delete_cycle id s) (delete_cycle-IsSound id s v)
    serve_one-IsSound (sets_throttle url id body) s w v =
        set_cycle_throttle-IsSound d digest url id body s v
    serve_one-IsSound (resumes id) s w v = on_cycle-IsSound start start_id id s v
    serve_one-IsSound (stops id) s w v = on_cycle-IsSound stop stop_id id s v
    serve_one-IsSound (resets id) s w v = on_cycle-IsSound reset reset_id id s v
    serve_one-IsSound starts s w v = start_scheduler-IsSound s v
    serve_one-IsSound shuts_down s w v = shutdown-IsSound s w v
    serve_one-IsSound (checks c) s w v = unhealthy_clusters-IsSound to_json c s w v
    serve_one-IsSound (toggles value r) s w v = toggle_handler-IsSound value r s w v
    serve_one-IsSound signals s w v = shutdown-IsSound s w v

    serve-IsSound :
        (es : List Event) (s : Scheduler) (w : W)
        → IsSound s
        → IsSound (serve rw' d digest to_json es (s, w)).0
    unfolding serve
    serve-IsSound [] s w v = v
    serve-IsSound (e ∷ es) s w v =
        let next = serve_one rw' d digest to_json e (s, w) in
        serve-IsSound es next.0 next.1 (serve_one-IsSound e s w v)

    -- From a new scheduler whose interval of the checkpoints is above 0, after any requests to the
    -- handlers, health checks, toggles and signals, in any order, each served before the next one
    -- comes: exactly one checkpoint goroutine runs if the scheduler runs and none if not, a
    -- `Shutdown` that comes then does not wait for a goroutine that is not there, and each cycle
    -- stands in the map under its own ID, and no ID twice.
    pub serve-shutdown :
        (es : List Event) (t : ℤ) (w : W)
        → let (s, w') = serve rw' d digest to_json es (new_scheduler t, w) in
          (s.checkpoints ≡ (if is_running s.state then 1 else 0))
          × ((shutdown rw' s w').2 ≢ panic)
          × IsKeyed s.cycles
          × IsDistinct s.cycles
    serve-shutdown es t w =
        let v = serve-IsSound es (new_scheduler t) w (new_scheduler-IsSound t) in
        (v.well.checkpointed, shutdown-ne-panic rw' _ _ v.well, v.keyed, v.distinct)
