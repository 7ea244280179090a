-- ===== src/Resources/Control.antt =====
-- resources/scheduler.go and resources/api.go: the handlers that start and stop the scheduler, that
-- give the API's document, and that set the level of the log.
-- A response is its status, the first that is written; the later ones have no effect.
use publish_carousel.Prelude.{
  ℕ, String, Option, none, some, ◌⊎◌, inl, inr, Error, Result, ok, err, panic, if◌then◌else◌,
  lowers_to, List, is_nil,
}
use publish_carousel.Scheduler.Control.{Scheduler, MetadataReadWriter, shutdown, start_scheduler}

-- `ShutdownScheduler`; none where the shutdown does not return.
module _ {W : Type 0} (rw' : MetadataReadWriter W) where
  abbrev shutdown_status : Result (Unit {0}) → Option ℕ
  shutdown_status (ok _) = some 200
  shutdown_status (err e) = some 500
  shutdown_status panic = none

  unfoldable pub shutdown_handler : Scheduler → W → Scheduler × W × Option ℕ
  shutdown_handler s w = let a = shutdown rw' s w in (a.0, a.1, shutdown_status a.2)

-- `StartScheduler`: after an error the handler goes on to write 200, which has no effect.
abbrev start_status : Option Error → ℕ
start_status none = 200
start_status (some e) = 500

unfoldable pub start_handler : Scheduler → Scheduler × ℕ
start_handler s = let a = start_scheduler s in (a.0, start_status a.1)

-- `API`: the status, of the document's bytes.
unfoldable pub api : List ℕ → ℕ
api bytes = if is_nil bytes then 503 else 200

pub data Level : Type 0 where
  debug info : Level

-- `LogLevel`, of the level in the decoded body: the level of the log and the status.
abbrev set_level : Level → String → Level × ℕ
set_level current level =
    if lowers_to level "debug"
    then (debug, 200)
    else if lowers_to level "info"
    then (info, 200)
    else (current, 400)

unfoldable pub log_level : Level → Error ⊎ String → Level × ℕ
log_level current (inl e) = (current, 400)
log_level current (inr level) = set_level current level
