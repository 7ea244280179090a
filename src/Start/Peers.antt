-- ===== src/Start/Peers.antt =====
-- main.go, with configurations from etcd: the goroutines that watch the keys, beside the requests. A
-- round of `Watch` in a goroutine is one step: each callback holds the lock of what it changes.
pub mod Heard
pub mod Told
use publish_carousel.Prelude.{String, List, [], ◌∷◌, ◌⊎◌, Error, Result, ok}
use publish_carousel.Cluster.Etcd.{Environment, on_read_urls}
use publish_carousel.Scheduler.Duration.{DurationText}
use publish_carousel.Scheduler.Control.{Scheduler, MetadataReadWriter}
use publish_carousel.Scheduler.Control.Toggle.{Request, automatic, manual, toggle_handler}
use publish_carousel.Start.Flags.{Options}
use publish_carousel.Start.Serve.{Event, serve_one}
use publish_carousel.Watcher.Etcd.{Keys, watch_key}

-- The world of the client of etcd, the scheduler with the world of its store, and the environments of
-- the lagcheck.
pub record EtcdProgram (V W U : Type 0) : Type 0 where
  pub client_world : V
  pub scheduler : Scheduler × W
  pub environments : List (String × Environment U)

-- The goroutines: of main.go for the two toggles, and of the lagcheck for its key.
pub data EtcdGoroutine : Type 0 where
  follows_toggle : Request → EtcdGoroutine
  follows_read_urls : EtcdGoroutine

abbrev pub key_of : Options → EtcdGoroutine → String
key_of o (follows_toggle manual) = o.toggle_etcd_key
key_of o (follows_toggle automatic) = o.active_cluster_etcd_key
key_of o follows_read_urls = o.read_monitoring_etcd_key

-- What happens in the program: a round of a goroutine, or one of the events that it serves.
pub data EtcdActivity : Type 0 where
  rounds : EtcdGoroutine → EtcdActivity
  serves_event : Event → EtcdActivity

module _ {V W U : Type 0} (keys : Keys V) where
  abbrev with_client : {A : Type 0} → EtcdProgram V W U → V × A → EtcdProgram V W U × A
  with_client p (v, a) = (record p { client_world = v }, a)

  -- The client, used from the program.
  abbrev pub program_keys : Keys (EtcdProgram V W U)
  program_keys = record {
    get = λ key p. with_client p (keys.get key p.client_world);
    next = λ key p. with_client p (keys.next key p.client_world);
    ctx_err = λ p. keys.ctx_err p.client_world;
    sleep = λ p. record p { client_world = keys.sleep p.client_world };
  }

module _ {V W U : Type 0} (keys : Keys V) (o : Options) (parse_url : String → Error ⊎ U)
    (rw' : MetadataReadWriter W) (d : DurationText) (digest : String → String)
    (to_json : List String → String) where
  -- The callbacks that are handed to `Watch`.
  unfoldable pub on_value :
      EtcdGoroutine → String → EtcdProgram V W U → EtcdProgram V W U × Result (Unit {0})
  unfolding on_read_urls
  on_value (follows_toggle r) value p =
      let s = p.scheduler in (record p { scheduler = toggle_handler rw' value r s.0 s.1 }, ok tt)
  on_value follows_read_urls value p =
      (record p { environments = on_read_urls parse_url value }, ok tt)

  unfoldable pub act_etcd : EtcdActivity → EtcdProgram V W U → EtcdProgram V W U
  unfolding on_value watch_key
  act_etcd (rounds g) p = watch_key (program_keys keys) (on_value g) 1 (key_of o g) p
  act_etcd (serves_event e) p = record p {
    scheduler = serve_one rw' d digest to_json e p.scheduler;
  }

  unfoldable pub run_etcd : List EtcdActivity → EtcdProgram V W U → EtcdProgram V W U
  unfolding act_etcd
  run_etcd [] p = p
  run_etcd (a ∷ more) p = run_etcd more (act_etcd a p)
