-- ===== src/Start/Flags.antt =====
-- main.go: the flags of the program, and the settings that are read from them. The package that
-- parses the command line is another one: its context is a parameter.
pub mod Declared
use publish_carousel.Prelude.{ℕ, String, List, [], ◌∷◌}
use publish_carousel.Start.{Settings}

-- The types of the flags, and of their values.
pub data FlagType : Type 0 where
  string_flag int_flag string_slice_flag : FlagType

abbrev pub Value : FlagType → Type 0
Value string_flag = String
Value int_flag = ℕ
Value string_slice_flag = List String

pub record Flag : Type 0 where
  pub flag_type : FlagType
  pub name : String
  pub value : Value flag_type
  pub env_var : String
  pub usage : String

abbrev string_of : String → String → String → String → Flag
string_of name value env_var usage = record {
  flag_type = string_flag;
  name = name;
  value = value;
  env_var = env_var;
  usage = usage;
}

abbrev int_of : String → ℕ → String → String → Flag
int_of name value env_var usage = record {
  flag_type = int_flag;
  name = name;
  value = value;
  env_var = env_var;
  usage = usage;
}

-- `app.Flags`
unfoldable pub flags : List Flag
flags =
    string_of "cycles" "./cycles.yml" "CYCLES_FILE" "Path to the YML cycle configuration file."
    ∷ string_of "blacklist" "./carousel_blacklist.txt" "BLACKLIST_FILE"
        "Path to the plaintxt blacklist file, which contains blacklisted uuids."
    ∷ string_of "mongo-db" "localhost:27017" "MONGO_DB_URL"
        "The Mongo DB connection url string (comma delimited)."
    ∷ int_of "mongo-node-count" 1 "MONGO_NODE_COUNT" "The number of Mongo DB instances."
    ∷ string_of "cms-notifier-url" "http://localhost:8080/__cms-notifier" "CMS_NOTIFIER_URL"
        "The CMS Notifier instance to POST publishes to."
    ∷ string_of "pam-url" "http://localhost:8080/__publish-availability-monitor" "PAM_URL"
        "The URL of the publish availability monitor to check the health of the cluster."
    ∷ string_of "lagcheck-url" "http://localhost:8080/__kafka-lagcheck" "LAGCHECK_URL"
        "The URL of the queue lagcheck service from the publishing cluster to verify the health of the cluster."
    ∷ string_of "aws-region" "" "AWS_REGION" "The AWS Region for this cluster."
    ∷ string_of "s3-bucket" "" "S3_BUCKET" "The S3 Bucket to save carousel states."
    ∷ string_of "api-yml" "./api.yml" "API_YML" "The swagger API yaml file for the service."
    ∷ int_of "mongo-timeout" 10000 "MONGO_DB_TIMEOUT"
        "The timeout (in milliseconds) for Mongo DB connections."
    ∷ record {
      flag_type = string_slice_flag;
      name = "etcd-peers";
      value = "http://localhost:2379" ∷ [];
      env_var = "ETCD_PEERS";
      usage = "The list of ETCD peers (e,g. \"http://localhost:2379\")";
    }
    ∷ string_of "toggle-etcd-key" "/ft/config/publish-carousel/enable" "TOGGLE_ETCD_KEY"
        "The etcd key that enables or disables the carousel"
    ∷ string_of "read-monitoring-etcd-key" "/ft/config/monitoring/read-urls" "READ_URLS_ETCD_KEY"
        "The etcd key which contains all the read environments"
    ∷ string_of "active-cluster-etcd-key" "/ft/healthcheck-categories/publish/enabled"
        "ACTIVE_CLUSTER_ETCD_KEY" "The ETCD key that specifies if the cluster is active"
    ∷ string_of "default-throttle" "1m" "DEFAULT_THROTTLE"
        "Default throttle for whole collection cycles, if it is not specified in configuration file"
    ∷ string_of "checkpoint-interval" "1h" "CHECKPOINT_INTERVAL"
        "Interval for saving metadata checkpoints"
    ∷ string_of "configs-dir" "/configs" "CONFIGS_DIR"
        "Directory containing the files with read environment, toggle and active-cluster values"
    ∷ string_of "credentials-dir" "/configs/credentials" "CREDENTIALS_DIR"
        "Directory containing the file with read environment credentials"
    ∷ []

-- `cli.Context`
pub record Context : Type 0 where
  pub string : String → String
  pub int : String → ℕ
  pub string_slice : String → List String

abbrev pub value_of : Context → (t : FlagType) → String → Value t
value_of ctx string_flag = ctx.string
value_of ctx int_flag = ctx.int
value_of ctx string_slice_flag = ctx.string_slice

-- All that the action of the program asks its context for.
pub record Options : Type 0 where
  pub settings : Settings
  pub aws_region : String
  pub s3_bucket : String
  pub blacklist : String
  pub mongo_timeout : ℕ
  pub cycles : String
  pub etcd_peers : List String
  pub configs_dir : String
  pub credentials_dir : String
  pub read_monitoring_etcd_key : String
  pub toggle_etcd_key : String
  pub active_cluster_etcd_key : String
  pub api_yml : String

unfoldable pub read_options : Context → Options
read_options ctx = record {
  settings = record {
    mongo_db = ctx.string "mongo-db";
    mongo_node_count = ctx.int "mongo-node-count";
    cms_notifier_url = ctx.string "cms-notifier-url";
    pam_url = ctx.string "pam-url";
    lagcheck_url = ctx.string "lagcheck-url";
    default_throttle = ctx.string "default-throttle";
    checkpoint_interval = ctx.string "checkpoint-interval";
  };
  aws_region = ctx.string "aws-region";
  s3_bucket = ctx.string "s3-bucket";
  blacklist = ctx.string "blacklist";
  mongo_timeout = ctx.int "mongo-timeout";
  cycles = ctx.string "cycles";
  etcd_peers = ctx.string_slice "etcd-peers";
  configs_dir = ctx.string "configs-dir";
  credentials_dir = ctx.string "credentials-dir";
  read_monitoring_etcd_key = ctx.string "read-monitoring-etcd-key";
  toggle_etcd_key = ctx.string "toggle-etcd-key";
  active_cluster_etcd_key = ctx.string "active-cluster-etcd-key";
  api_yml = ctx.string "api-yml";
}
