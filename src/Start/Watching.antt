-- ===== src/Start/Watching.antt =====
-- main.go, with configurations from files: the goroutines that watch the files, beside the requests.
-- One watcher serves them all, so they share its map of contents. A tick of a goroutine is one step:
-- each callback holds the lock of what it changes.
pub mod Follows
pub mod Served
pub mod Settled
pub mod Forgotten
pub mod Environments
use publish_carousel.Prelude.{String, List, [], ◌∷◌, ◌⊎◌, inl, inr, Error, Result, ok}
use publish_carousel.Cluster.Environments.{ReadEnvironment}
use publish_carousel.Cluster.External.{on_environments, on_credentials}
use publish_carousel.Scheduler.Duration.{DurationText}
use publish_carousel.Scheduler.Control.{Scheduler, MetadataReadWriter}
use publish_carousel.Scheduler.Control.Toggle.{Request, automatic, manual, toggle_handler}
use publish_carousel.Start.Serve.{Event, serve_one}
use publish_carousel.Watcher.{FileInfo, Files, Watching, read, tick}

-- The world of the files, the scheduler with the world of its store, and the environments of the
-- lagcheck.
pub record Program (V W U : Type 0) : Type 0 where
  pub files_world : V
  pub scheduler : Scheduler × W
  pub environments : List (String × ReadEnvironment U)

-- The goroutines: of main.go for the two toggles, and of the lagcheck for its two files.
pub data Goroutine : Type 0 where
  watches_toggle : Request → Goroutine
  watches_environments watches_credentials : Goroutine

abbrev pub file_of : Goroutine → String
file_of (watches_toggle manual) = "toggle"
file_of (watches_toggle automatic) = "active-cluster"
file_of watches_environments = "read.environments"
file_of watches_credentials = "read.credentials"

-- What happens in the program: a tick of a goroutine, or one of the events that it serves.
pub data Activity : Type 0 where
  ticks : Goroutine → Activity
  serves : Event → Activity

module _ {V W U : Type 0} (files : Files V) where
  abbrev with_files : {A : Type 0} → Program V W U → V × A → Program V W U × A
  with_files p (v, a) = (record p { files_world = v }, a)

  -- The files, read from the program.
  abbrev pub program_files : Files (Program V W U)
  program_files = record {
    walk = λ folder p. with_files p (files.walk folder p.files_world);
    read_file = λ path p. with_files p (files.read_file path p.files_world);
    ctx_err = λ p. files.ctx_err p.files_world;
  }

module _ {V W U : Type 0} (files : Files V) (paths : List (String × String))
    (parse_url : String → Error ⊎ U) (rw' : MetadataReadWriter W) (d : DurationText)
    (digest : String → String) (to_json : List String → String) where
  abbrev with_environments : Program V W U → V × List (String × ReadEnvironment U) → Program V W U
  with_environments p (v, m) = record p { files_world = v; environments = m }

  -- The callbacks that are handed to `Watch`.
  unfoldable pub on_change : Goroutine → String → Program V W U → Program V W U × Result (Unit {0})
  unfolding on_environments on_credentials
  on_change (watches_toggle r) value p =
      let s = p.scheduler in (record p { scheduler = toggle_handler rw' value r s.0 s.1 }, ok tt)
  on_change watches_environments urls p = (
    with_environments p (
        on_environments parse_url (read files paths) (file_of watches_credentials) urls
          p.environments p.files_world),
    ok tt,
  )
  on_change watches_credentials creds p = (
    with_environments p (
        on_credentials parse_url (read files paths) (file_of watches_environments) creds
          p.environments p.files_world),
    ok tt,
  )

  unfoldable pub act : Activity → Watching (Program V W U) → Watching (Program V W U)
  unfolding on_change
  act (ticks g) s = tick (program_files files) (on_change g) paths (file_of g) s
  act (serves e) s =
      let p = s.world in
      record s { world = record p { scheduler = serve_one rw' d digest to_json e p.scheduler } }

  unfoldable pub run_program : List Activity → Watching (Program V W U) → Watching (Program V W U)
  unfolding act
  run_program [] s = s
  run_program (a ∷ rest) s = run_program rest (act a s)
