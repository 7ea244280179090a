-- ===== src/Start.antt =====
-- main.go: the settings that stop the program, the toggles it starts with, and how the scheduler is
-- started and stopped with it.
pub mod Toggles
pub mod Restart
pub mod Urls
pub mod Serve
pub mod Watching
pub mod Flags
pub mod Action
pub mod Peers
use Prim.Native.String.{◌++◌ as append}
use publish_carousel.Prelude.{
  ℕ, String, Bool, true, false, ◌||◌, List, [], ◌∷◌, Option, none, some, ◌⊎◌, inl, inr, Error,
  Result, ok, err, panic, ◌>>◌, ◌>>=◌, if◌then◌else◌, concat, text_eq, ltb, length,
}
use publish_carousel.Prelude.Split.{split}
use publish_carousel.Prelude.Int.{ℤ, pos}
use publish_carousel.Cluster.Environments.{comma}
use publish_carousel.Cluster.Service.{ClusterService, new_service}
use publish_carousel.Cms.Notifier.{new_notifier}
use publish_carousel.Scheduler.Control.{
  Scheduler, MetadataReadWriter, shutdown, restore_previous_state, start_scheduler,
  start_with_interval,
}
use publish_carousel.Scheduler.Control.Toggle.{Request, manual, automatic, toggle_handler}

-- `CheckMongoURLs` of native/mongo.go, over `net.SplitHostPort` and the decimal text of a number.
-- The expected count is a setting, and not negative.
module _ (split_host_port : String → Error ⊎ String × String) (decimal : ℕ → String) where
  abbrev pub check_host_port : String → Error ⊎ String × String → Option Error
  check_host_port url (inl e) =
      some
        (concat ("cannot split MongoDB URL: " ∷ url ∷ " into host and port. Error is: " ∷ e ∷ []))
  check_host_port url (inr (host, port)) =
      if text_eq host "" || text_eq port ""
      then some (
          concat (
            "one of the MongoDB URLs is incomplete: " ∷ url ∷ ". It should have host and port"
            ∷ []))
      else none

  abbrev pub first_error : Option Error → Option Error → Option Error
  first_error (some e) o = some e
  first_error none o = o

  unfoldable pub check_each_url : List String → Option Error
  check_each_url [] = none
  check_each_url (url ∷ urls) =
      first_error (check_host_port url (split_host_port url)) (check_each_url urls)

  unfoldable pub check_mongo_urls : String → ℕ → Option Error
  unfolding check_each_url
  check_mongo_urls provided expected =
      let urls = split comma provided in
      if text_eq provided ""
      then some "MongoDB urls are missing"
      else if ltb (length urls) expected
      then some (
          concat (
            "The list of MongoDB URLs should have "
            ∷ decimal expected
            ∷ " instances, but it has "
            ∷ decimal (length urls)
            ∷ " instead. Provided MongoDB URLs are: "
            ∷ provided
            ∷ []))
      else check_each_url urls

-- `panic(err)`
abbrev pub must {ℓ} : {A : Type ℓ} → Error ⊎ A → Result A
must (inl e) = panic
must (inr a) = ok a

abbrev pub must_not : Option Error → Result (Unit {0})
must_not (some e) = panic
must_not none = ok tt

-- An error that is only logged, beside a nil value.
abbrev pub or_nil {ℓ} : {A : Type ℓ} → Error ⊎ A → Option A
or_nil (inl e) = none
or_nil (inr a) = some a

-- The settings that are looked at before the scheduler is loaded.
pub record Settings : Type 0 where
  pub mongo_db : String
  pub mongo_node_count : ℕ
  pub cms_notifier_url : String
  pub pam_url : String
  pub lagcheck_url : String
  pub default_throttle : String
  pub checkpoint_interval : String

-- What the program has then: the notifier and the monitor are nil where their URL was refused.
pub record Setup : Type 0 where
  pub notifier : Option ClusterService
  pub pam : Option ClusterService
  pub publishing_lagcheck : ClusterService
  pub default_throttle : ℤ
  pub checkpoint_interval : ℤ

abbrev or_zero : Error ⊎ ℤ → ℤ
or_zero (inl e) = pos 0
or_zero (inr d) = d

-- One hour of nanoseconds.
abbrev or_hour : Error ⊎ ℤ → ℤ
or_hour (inl e) = pos 3600000000000
or_hour (inr d) = d

-- `app.Action` up to the loading of the scheduler. `blacklist` is the error of
-- `NewFileBasedBlacklist`, `parse_uri` is `url.ParseRequestURI`, and `parse_duration` is that of
-- `time`, which gives 0 beside an error.
unfoldable pub configure :
    (String → ℕ → Option Error)
    → Option Error
    → (String → Option Error)
    → (String → Error ⊎ ℤ)
    → Settings
    → Result Setup
unfolding new_service new_notifier
configure check_urls blacklist parse_uri parse_duration s =
    must_not (check_urls s.mongo_db s.mongo_node_count)
    >> must_not blacklist
    >> (must (new_service parse_uri "kafka-lagcheck" s.lagcheck_url false) >>= λ lagcheck.
        ok (record {
          notifier = or_nil (new_notifier parse_uri s.cms_notifier_url);
          pam = or_nil (new_service parse_uri "publish-availability-monitor" s.pam_url true);
          publishing_lagcheck = lagcheck;
          default_throttle = or_zero (parse_duration s.default_throttle);
          checkpoint_interval = or_hour (parse_duration s.checkpoint_interval);
        }))

-- The value of a toggle: a file that cannot be read is the empty text, and etcd's error a panic.
unfoldable pub file_toggle : Error ⊎ String → String
file_toggle (inl e) = ""
file_toggle (inr value) = value

unfoldable pub etcd_toggle : Error ⊎ String → Result String
etcd_toggle answer = must answer

module _ {W : Type 0} (rw' : MetadataReadWriter W) where
  -- `app.Action` from the toggles to `Start`, on the scheduler that was loaded, where the interval of
  -- the checkpoints is above 0.
  unfoldable pub start_up : String → String → Scheduler → W → Scheduler × W
  start_up manual_toggle auto_toggle s w =
      let a = toggle_handler rw' manual_toggle manual s w in
      let b = toggle_handler rw' auto_toggle automatic a.0 a.1 in
      let c = restore_previous_state rw' b.0 b.1 in ((start_scheduler c.0).0, c.1)

  -- The same with any interval of the checkpoints: a panic of `Start` ends the program, and its error
  -- is not looked at.
  abbrev pub unless_panic : Scheduler × Result (Unit {0}) → W → Result (Scheduler × W)
  unless_panic (s, ok _) w = ok (s, w)
  unless_panic (s, err e) w = ok (s, w)
  unless_panic (s, panic) w = panic

  unfoldable pub start_up_with_interval :
      ℤ → String → String → Scheduler → W → Result (Scheduler × W)
  unfolding start_with_interval
  start_up_with_interval interval manual_toggle auto_toggle s w =
      let a = toggle_handler rw' manual_toggle manual s w in
      let b = toggle_handler rw' auto_toggle automatic a.0 a.1 in
      let c = restore_previous_state rw' b.0 b.1 in
      unless_panic (start_with_interval interval c.0) c.1

  -- The goroutine of `shutdown`, at a signal: the scheduler's error is only logged.
  unfoldable pub on_signal : Scheduler → W → Scheduler × W
  on_signal s w = let a = shutdown rw' s w in (a.0, a.1)
