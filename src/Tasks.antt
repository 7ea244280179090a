-- ===== src/Tasks.antt =====
-- tasks/publish_task.go: the interface `Task`, over the world `W` that its calls read and change.
pub mod PublishTask
use publish_carousel.Prelude.{String, Result}
use publish_carousel.Native.Content.{Content}

-- `prepare collection uuid` gives the document and the transaction id. An error of `Prepare` comes
-- with an empty transaction id, as every error return of the task does.
pub record Task (W : Type 0) : Type 0 where
  pub prepare : String → String → W → W × Result (Content × String)
  pub execute : String → Content → String → String → W → W × Result (Unit {0})
