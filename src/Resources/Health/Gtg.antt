-- ===== src/Resources/Health/Gtg.antt =====
-- resources/healthchecks.go: the good-to-go endpoint, which runs all checks one after the other.
use publish_carousel.Prelude.{
  String, Bool, true, false, List, [], ◌∷◌, map, Option, none, some, Error,
}
use publish_carousel.Scheduler.Control.{Scheduler, MetadataReadWriter}
use publish_carousel.Resources.Health.{
  Checked, ping_mongo, ping_s3, cms_notifier_gtg, unhealthy_cycles, config_healthcheck,
  unhealthy_clusters, cluster_failover_healthcheck,
}
use publish_carousel.Resources.Health.Channel.{Collector}

-- What the checks ask: the session's `Open` and `Ping`, `Ping` of S3, `Check` of the notifier, the
-- receiver's results on the services, and the error of the configuration.
pub record Dependencies (W : Type 0) : Type 0 where
  pub open_session : W → W × Option Error
  pub ping_session : W → W × Option Error
  pub ping_store : W → W × Option Error
  pub check_notifier : W → W × Option Error
  pub check_services : W → W × Collector
  pub config_error : Option Error

-- `gtg.Status`
pub record Status : Type 0 where
  pub good_to_go : Bool
  pub message : String

-- `gtgCheck`
unfoldable pub gtg_check : Checked → Status
gtg_check (output, none) = record { good_to_go = true; message = "" }
gtg_check (output, some e) = record { good_to_go = false; message = e }

module _ {W : Type 0} (rw' : MetadataReadWriter W) (to_json : List String → String)
    (deps : Dependencies W) where
  -- The checkers of `getHealthchecks`, in their order: the last looks at the scheduler that the one
  -- before it leaves.
  unfoldable pub run_checks : Scheduler → W → Scheduler × W × List (String × Checked)
  run_checks s w =
      let mongo = ping_mongo deps.open_session deps.ping_session w in
      let s3 = ping_s3 deps.ping_store mongo.0 in
      let notifier = cms_notifier_gtg deps.check_notifier s3.0 in
      let services = deps.check_services notifier.0 in
      let clusters = unhealthy_clusters to_json rw' services.1 s services.0 in
      (
        clusters.0,
        clusters.1,
        ("CheckConnectivityToNativeDatabase", mongo.1)
            ∷ ("CheckConnectivityToS3", s3.1)
            ∷ ("CheckCMSNotifierHealth", notifier.1)
            ∷ ("UnhealthyCycles", unhealthy_cycles to_json s)
            ∷ ("InvalidCycleConfiguration", config_healthcheck deps.config_error)
            ∷ ("UnhealthyCluster", clusters.2)
            ∷ ("ActivePublishingCluster", cluster_failover_healthcheck clusters.0)
            ∷ [],
      )

  -- `GTG`: the statuses that are handed to `gtg.FailFastParallelCheck`.
  unfoldable pub gtg : Scheduler → W → Scheduler × W × List Status
  unfolding run_checks gtg_check
  gtg s w =
      let a = run_checks s w in
      (a.0, a.1, map (λ (check : String × Checked). gtg_check check.1) a.2)
