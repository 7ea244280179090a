-- ===== src/Resources/Health.antt =====
-- resources/healthchecks.go: the checks of the health endpoint. A check gives its output and an
-- error, or none, and one of them also starts and shuts down the scheduler.
pub mod Channel
pub mod Clusters
pub mod Gtg
use Prim.Native.String.{◌++◌ as append}
use publish_carousel.Prelude.{
  ℕ, String, Bool, true, false, not, ◌&&◌, List, [], ◌∷◌, ◌++◌, Option, none, some, Error,
  if◌then◌else◌, text_eq, is_nil,
}
use publish_carousel.Scheduler.Mode.{
  is_enabled, is_running, is_automatically_disabled, was_automatically_disabled,
}
use publish_carousel.Scheduler.Cycle.{Cycle}
use publish_carousel.Scheduler.Control.{
  CycleMap, Scheduler, MetadataReadWriter, shutdown, start_scheduler,
}
use publish_carousel.Resources.Health.Channel.{Collector}

abbrev pub Checked : Type 0
Checked = String × Option Error

-- The answer of a check that only reports its error.
abbrev pub answer : Option Error → Checked
answer none = ("OK", none)
answer (some e) = ("", some e)

-- `pingMongo`, over the session's `Open` and `Ping`. The session is closed by a goroutine.
module _ {W : Type 0} (open_session ping : W → W × Option Error) where
  abbrev ping_opened : W × Option Error → W × Checked
  ping_opened (w, some e) = (w, ("", some e))
  ping_opened (w, none) = ((ping w).0, answer (ping w).1)

  unfoldable pub ping_mongo : W → W × Checked
  ping_mongo w = ping_opened (open_session w)

-- `pingS3` and `cmsNotifierGTG`: the error of `Ping` or of `Check`.
unfoldable pub ping_s3 {ℓ} : {W : Type ℓ} → (W → W × Option Error) → W → W × Checked
ping_s3 ping w = ((ping w).0, answer (ping w).1)

unfoldable pub cms_notifier_gtg {ℓ} : {W : Type ℓ} → (W → W × Option Error) → W → W × Checked
cms_notifier_gtg check w = ((check w).0, answer (check w).1)

-- `configHealthcheck`
unfoldable pub config_healthcheck : Option Error → Checked
config_healthcheck e = answer e

-- The ID of a cycle, once for each of its states that is "unhealthy".
unfoldable pub unhealthy_states : String → List String → List String
unhealthy_states id [] = []
unhealthy_states id (state ∷ states) =
    let rest = unhealthy_states id states in if text_eq state "unhealthy" then id ∷ rest else rest

unfoldable pub unhealthy_ids : CycleMap → List String
unfolding unhealthy_states
unhealthy_ids [] = []
unhealthy_ids ((k, c) ∷ m) = unhealthy_states c.cycle_id c.metadata.state ++ unhealthy_ids m

-- `clusterFailoverHealthcheck`
unfoldable pub cluster_failover_healthcheck : Scheduler → Checked
cluster_failover_healthcheck s =
    if is_automatically_disabled s.state
    then (
      "Detected publishing cluster failover",
      some "carousel scheduler has been automatically disabled",
    )
    else if was_automatically_disabled s.state
    then ("Detected publishing cluster failback", some "carousel scheduler is enabled but stopped")
    else if not (is_enabled s.state)
    then ("Carousel scheduler manually disabled", none)
    else ("No failover issues, carousel scheduler enabled", none)

-- `toJSON` of a list of texts is a parameter.
module _ (to_json : List String → String) where
  -- `unhealthyCycles`
  unfoldable pub unhealthy_cycles : Scheduler → Checked
  unfolding unhealthy_ids
  unhealthy_cycles s =
      let ids = unhealthy_ids s.cycles in
      if is_nil ids
      then ("No unhealthy cycles.", none)
      else ("", some (append "The following cycles are unhealthy! " (to_json ids)))

  -- `unhealthyClusters`, after the results of the services were collected. The errors of the
  -- scheduler are not looked at.
  unfoldable pub unhealthy_clusters :
      {W : Type 0} → MetadataReadWriter W → Collector → Scheduler → W → Scheduler × W × Checked
  unhealthy_clusters rw' c s w =
      let down = shutdown rw' s w in
      let failed : Checked = (
        append "One or more dependent services are unhealthy: " (to_json c.unhealthy_services),
        some c.message,
      ) in
      if not (is_nil c.unhealthy_services)
      then (if is_running s.state then (down.0, down.1, failed) else (s, w, failed))
      else if not (is_running s.state)
          && is_enabled s.state
          && not (was_automatically_disabled s.state)
      then ((start_scheduler s).0, w, ("Cluster is healthy", none))
      else (s, w, ("Cluster is healthy", none))
