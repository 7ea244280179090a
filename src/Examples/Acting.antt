-- ===== src/Examples/Acting.antt =====
-- The action of the program, with its configurations from files.
use publish_carousel.Prelude.{
  ℕ, ◌+◌, String, ◌≡◌, ◌≢◌, refl, false, [], ◌∷◌, none, inl, inr, ok, panic, arith, if◌then◌else◌,
  text_eq, is_blank, starts_with,
}
use publish_carousel.Prelude.Int.{pos}
use publish_carousel.Watcher.{Files, FileInfo}
use publish_carousel.Watcher.Etcd.{Keys}
use publish_carousel.Cluster.Environments.{parse_environments}
use publish_carousel.Start.{Setup, configure}
use publish_carousel.Start.Flags.{Options}
use publish_carousel.Start.Action.{Outside, Sources, read_sources, action}
use publish_carousel.Start.Action.Starts.{ComesTo, action-starts}
use publish_carousel.Examples.Configs.{all_minutes, archive}
use publish_carousel.Examples.Restarts.{shelves, nothing}

abbrev file_at : String → String → FileInfo
file_at path name = record { path = path; name = name; is_dir = false }

-- The world counts the readings. Both toggles are on, and no environment is configured.
abbrev folder : Files ℕ
folder = record {
  walk = λ folder n. (
    n,
    inr (
        file_at "/configs/toggle" "toggle"
        ∷ file_at "/configs/active-cluster" "active-cluster"
        ∷ file_at "/configs/read.environments" "read.environments"
        ∷ file_at "/configs/credentials/read.credentials" "read.credentials"
        ∷ []),
  );
  read_file = λ path n. (
    n + 1,
    inr (
        if text_eq path "/configs/toggle"
        then "true"
        else if text_eq path "/configs/active-cluster"
        then "1"
        else ""),
  );
  ctx_err = λ n. none;
}

abbrev no_keys : Keys ℕ
no_keys = record {
  get = λ key n. (n, inl "no such key");
  next = λ key n. (n, inl "no such key");
  ctx_err = λ n. none;
  sleep = λ n. n;
}

-- The bytes of the file of cycles are not looked at.
abbrev outside : Outside ℕ (Unit {0}) String
outside = record {
  files = folder;
  keys = no_keys;
  check_urls = λ urls n. none;
  new_blacklist = λ file. none;
  parse_uri = λ url. none;
  parse_url = λ url. inr url;
  parse_duration = λ text. inr (pos 60000000000);
  read_file = λ file. inr tt;
  unmarshal = λ bytes. inr (archive ∷ []);
  new_etcd_watcher = λ peers. none;
}

abbrev pub options : Options
options = record {
  settings = record {
    mongo_db = "localhost:27017";
    mongo_node_count = 1;
    cms_notifier_url = "http://localhost:8080/__cms-notifier";
    pam_url = "http://localhost:8080/__publish-availability-monitor";
    lagcheck_url = "http://localhost:8080/__kafka-lagcheck";
    default_throttle = "1m";
    checkpoint_interval = "1h";
  };
  aws_region = "";
  s3_bucket = "";
  blacklist = "./carousel_blacklist.txt";
  mongo_timeout = 10000;
  cycles = "./cycles.yml";
  etcd_peers = "NOT_AVAILABLE" ∷ [];
  configs_dir = "/configs";
  credentials_dir = "/configs/credentials";
  read_monitoring_etcd_key = "";
  toggle_etcd_key = "";
  active_cluster_etcd_key = "";
  api_yml = "./api.yml";
}

abbrev sources : Sources String
sources = record { manual_toggle = "true"; auto_toggle = "1"; delivery_lagcheck = inl [] }

setup :
    (s : Setup) × (configure outside.check_urls none outside.parse_uri outside.parse_duration
        options.settings
      ≡ ok s)
unfolding configure
setup = (_, refl)

sourced : read_sources outside options 0 ≡ ok (4, sources)
unfolding read_sources starts_with parse_environments is_blank
sourced = refl

never_panics : (t : String) → all_minutes.parse_duration t ≢ panic
never_panics t h = ground (arith, h)

action-starts_example :
    ComesTo outside options shelves all_minutes
      (λ t. t)
      never_panics
      setup.0
      sources
      (archive ∷ [])
      (action outside options shelves all_minutes (λ t. t) 0 nothing)
action-starts_example =
    action-starts outside options shelves all_minutes (λ t. t) never_panics 0 4 nothing setup.0
      sources tt archive [] setup.1 refl refl sourced
