-- ===== src/Examples/Starting.antt =====
-- The program that is stopped and started again, over a store in memory.
use publish_carousel.Prelude.{
  err, panic, List, [], ◌∷◌, if◌then◌else◌, String, ◌≡◌, ◌⊎◌, inr, Error, ◌≢◌, ℕ,
}
use publish_carousel.Scheduler.Mode.{disabled, unknown, is_running}
use publish_carousel.Scheduler.Control.{Scheduler, shutdown}
use publish_carousel.Prelude.Int.{pos}
use publish_carousel.Scheduler.Control.{new_scheduler}
use publish_carousel.Scheduler.Control.Toggle.{manual}
use publish_carousel.Scheduler.Control.Keys.{IsKeyed}
use publish_carousel.Scheduler.Control.Saved.{IsDistinct}
use publish_carousel.Resources.Health.Channel.{new_collector}
use publish_carousel.Start.Serve.{Event, toggles, starts, checks, creates, signals, serve}
use publish_carousel.Start.Serve.Sound.{serve-shutdown}
use publish_carousel.Examples.Configs.{all_minutes}
use publish_carousel.Examples.Schedules.{with_one}
use publish_carousel.Examples.Restarts.{shelves, nothing}

-- The scheduler that is loaded at the second start.
abbrev pub loaded : Scheduler
loaded = record (with_one disabled 0) {
  state = record { current_state = disabled; previous_state = unknown };
}

-- Two nodes, on one port.
abbrev split_at : String → Error ⊎ String × String
split_at url = inr (url, "27017")

abbrev digits : ℕ → String
digits n = "2"

abbrev urls : String
urls = "a:27017,b:27017"

-- Both toggles, a start, a health check, a request that cannot be read, and the signal.
abbrev events : List Event
events =
    toggles "true" manual ∷ starts ∷ checks new_collector ∷ creates (err "not JSON") ∷ signals ∷ []

serve-shutdown_example :
    let (s, w') =
      serve shelves all_minutes (λ t. t) (λ l. "[]") events (new_scheduler (pos 1), nothing) in
    (s.checkpoints ≡ (if is_running s.state then 1 else 0))
    × ((shutdown shelves s w').2 ≢ panic)
    × IsKeyed s.cycles
    × IsDistinct s.cycles
serve-shutdown_example =
    serve-shutdown shelves all_minutes (λ t. t) (λ l. "[]") events (pos 1) nothing
