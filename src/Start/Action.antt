-- ===== src/Start/Action.antt =====
-- main.go: `app.Action` as a whole, from the settings to the scheduler that is started.
pub mod Starts
use publish_carousel.Prelude.{
  ℕ, String, List, [], ◌∷◌, Option, ◌⊎◌, inl, inr, Error, Result, ok, err, panic, ◌>>=◌, ◌>>◌,
  if◌then◌else◌, text_eq,
}
use publish_carousel.Prelude.Int.{ℤ}
use publish_carousel.Cluster.Environments.{ReadEnvironment}
use publish_carousel.Cluster.External.{new_environment_service}
use publish_carousel.Cluster.Etcd.{Environment, new_etcd_service}
use publish_carousel.Scheduler.Duration.{DurationText}
use publish_carousel.Scheduler.Config.{CycleConfig}
use publish_carousel.Scheduler.LoadFile.{load_scheduler}
use publish_carousel.Scheduler.Control.{Scheduler, MetadataReadWriter}
use publish_carousel.Start.{
  Setup, configure, must, must_not, file_toggle, etcd_toggle, start_up_with_interval,
}
use publish_carousel.Start.Flags.{Options}
use publish_carousel.Watcher.{Files, new_file_watcher, read}
use publish_carousel.Watcher.Etcd.{Keys, read_key}

-- The environments of the lagcheck: of cluster/file or of cluster/etcd.
abbrev pub Lagcheck : Type 0 → Type 0
Lagcheck U = List (String × ReadEnvironment U) ⊎ List (String × Environment U)

-- What the two branches leave behind: the toggles as they were read, and the environments.
pub record Sources (U : Type 0) : Type 0 where
  pub manual_toggle : String
  pub auto_toggle : String
  pub delivery_lagcheck : Lagcheck U

-- What the program asks of other packages, and of the files that it reads once: `CheckMongoURLs` and
-- the blacklist by their errors, `url.ParseRequestURI` and `url.Parse`, `time.ParseDuration`, the
-- bytes of the file of cycles and their decoder, and the error of the configuration of etcd.
pub record Outside (V B U : Type 0) : Type 0 where
  pub files : Files V
  pub keys : Keys V
  pub check_urls : String → ℕ → Option Error
  pub new_blacklist : String → Option Error
  pub parse_uri : String → Option Error
  pub parse_url : String → Error ⊎ U
  pub parse_duration : String → Error ⊎ ℤ
  pub read_file : String → Error ⊎ B
  pub unmarshal : B → Error ⊎ List CycleConfig
  pub new_etcd_watcher : List String → Option Error

-- The program once `Start` of the scheduler has returned.
pub record Carousel (V W U : Type 0) : Type 0 where
  pub setup : Setup
  pub config_error : Option Error
  pub sources : Sources U
  pub files_world : V
  pub scheduler : Scheduler × W

module _ {V B U : Type 0} (out : Outside V B U) (o : Options) where
  unfoldable pub from_files : V → Result (V × Sources U)
  unfolding new_file_watcher new_environment_service read file_toggle
  from_files v =
      let w = new_file_watcher out.files (o.configs_dir ∷ o.credentials_dir ∷ []) v in
      must w.1 >>= λ paths.
      let read_path = read out.files paths in
      let s =
        new_environment_service out.parse_url read_path "read.environments" "read.credentials"
          w.0 in
      must s.1 >>= λ environments.
      let m = read_path "toggle" s.0 in
      let a = read_path "active-cluster" m.0 in
      ok (
        a.0,
        record {
          manual_toggle = file_toggle m.1;
          auto_toggle = file_toggle a.1;
          delivery_lagcheck = inl environments;
        },
      )

  unfoldable pub from_etcd : V → Result (V × Sources U)
  unfolding read_key new_etcd_service etcd_toggle
  from_etcd v =
      must_not (out.new_etcd_watcher o.etcd_peers)
      >> (let s = read_key out.keys o.read_monitoring_etcd_key v in
          new_etcd_service out.parse_url s.1 >>= λ environments.
          let m = read_key out.keys o.toggle_etcd_key s.0 in
          etcd_toggle m.1 >>= λ manual_toggle.
          let a = read_key out.keys o.active_cluster_etcd_key m.0 in
          etcd_toggle a.1 >>= λ auto_toggle. ok (
            a.0,
            record {
              manual_toggle = manual_toggle;
              auto_toggle = auto_toggle;
              delivery_lagcheck = inr environments;
            },
          ))

  -- The branch on the first peer; with no peer the index is out of range.
  abbrev pub by_peers : List String → V → Result (V × Sources U)
  by_peers [] v = panic
  by_peers (peer ∷ peers) v = if text_eq peer "NOT_AVAILABLE" then from_files v else from_etcd v

  unfoldable pub read_sources : V → Result (V × Sources U)
  unfolding from_files from_etcd
  read_sources v = by_peers o.etcd_peers v

  module _ {W : Type 0} (rw' : MetadataReadWriter W) (d : DurationText)
      (digest : String → String) where
    -- The rest of the action, with the scheduler that was loaded.
    abbrev pub launched : Setup → Option Error → V × Sources U → Scheduler × W → Carousel V W U
    launched setup config_error (v, sources) scheduler = record {
      setup = setup;
      config_error = config_error;
      sources = sources;
      files_world = v;
      scheduler = scheduler;
    }

    abbrev pub launch :
        Setup → Option Error → Scheduler → W → V × Sources U → Result (Carousel V W U)
    launch setup config_error s w (v, sources) =
        start_up_with_interval rw' setup.checkpoint_interval sources.manual_toggle
          sources.auto_toggle s w
        >>= λ scheduler. ok (launched setup config_error (v, sources) scheduler)

    unfoldable pub action : V → W → Result (Carousel V W U)
    unfolding configure load_scheduler read_sources start_up_with_interval
    action v w =
        configure out.check_urls (out.new_blacklist o.blacklist) out.parse_uri out.parse_duration
          o.settings
        >>= λ setup.
            load_scheduler d digest out.unmarshal (out.read_file o.cycles) setup.default_throttle
            >>= λ loaded. read_sources v >>= λ sources. launch setup loaded.1 loaded.0 w sources
