-- ===== src/Start/Serve.antt =====
-- main.go: the requests, the toggles and the signal that reach the scheduler while the program
-- serves. The router is another package; here a request stands at the route that it takes.
pub mod Handlers
pub mod Sound
pub mod Runs
use publish_carousel.Prelude.{String, List, [], ◌∷◌, Result}
use publish_carousel.Scheduler.Duration.{DurationText}
use publish_carousel.Scheduler.Config.{CycleConfig}
use publish_carousel.Scheduler.Throttle.{TextMap}
use publish_carousel.Scheduler.Control.{Scheduler, MetadataReadWriter}
use publish_carousel.Scheduler.Control.Toggle.{Request, toggle_handler}
use publish_carousel.Resources.Control.{shutdown_handler, start_handler}
use publish_carousel.Resources.Cycles.{
  create_handler, delete_handler, set_cycle_throttle, resume_cycle, stop_cycle, reset_cycle,
}
use publish_carousel.Resources.Health.{unhealthy_clusters}
use publish_carousel.Resources.Health.Channel.{Collector}
use publish_carousel.Start.{on_signal}

-- Events that are served one after the other, with an interval of the checkpoints above 0. The program
-- lets a start and a shutdown overlap, which is in Scheduler.Overlapping.
-- A body comes as the decoder made it. `reads` stands for the routes that answer from the state:
-- /__api, /__log, the build and the ping of the service, and GET of /cycles, /cycles/:id and
-- /cycles/:id/throttle. `checks` stands for /__gtg and /__health, with what the receiver collected.
pub data Event : Type 0 where
  reads : Event
  creates : Result CycleConfig → Event
  deletes : String → Event
  sets_throttle : String → String → Result TextMap → Event
  resumes : String → Event
  stops : String → Event
  resets : String → Event
  starts : Event
  shuts_down : Event
  checks : Collector → Event
  toggles : String → Request → Event
  signals : Event

module _ {W : Type 0} (rw' : MetadataReadWriter W) (d : DurationText) (digest : String → String)
    (to_json : List String → String) where
  unfoldable pub serve_one : Event → Scheduler × W → Scheduler × W
  serve_one reads (s, w) = (s, w)
  serve_one (creates body) (s, w) = ((create_handler d digest body s).0, w)
  serve_one (deletes id) (s, w) = ((delete_handler id s).0, w)
  serve_one (sets_throttle url id body) (s, w) = ((set_cycle_throttle d digest url id body s).0, w)
  serve_one (resumes id) (s, w) = ((resume_cycle id s).0, w)
  serve_one (stops id) (s, w) = ((stop_cycle id s).0, w)
  serve_one (resets id) (s, w) = ((reset_cycle id s).0, w)
  serve_one starts (s, w) = ((start_handler s).0, w)
  serve_one shuts_down (s, w) = let a = shutdown_handler rw' s w in (a.0, a.1)
  serve_one (checks c) (s, w) = let a = unhealthy_clusters to_json rw' c s w in (a.0, a.1)
  serve_one (toggles value r) (s, w) = toggle_handler rw' value r s w
  serve_one signals (s, w) = on_signal rw' s w

  unfoldable pub serve : List Event → Scheduler × W → Scheduler × W
  unfolding serve_one
  serve [] a = a
  serve (e ∷ es) a = serve es (serve_one e a)
