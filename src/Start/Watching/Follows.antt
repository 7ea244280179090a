-- ===== src/Start/Watching/Follows.antt =====
-- main.go: the scheduler of a program that watches its files sees the changes of the toggles, among
-- the requests.
use publish_carousel.Prelude.{
  String, ◌≡◌, refl, ap, ◌∙◌, Bool, true, false, not, List, [], ◌∷◌, ◌++◌, ◌⊎◌, inl, inr, Error,
  if◌then◌else◌, text_eq, Bool-cases, some,
}
use publish_carousel.Cluster.Environments.{set_key, get_key}
use publish_carousel.Cluster.Environments.Keys.{get_key-set_key}
use publish_carousel.Scheduler.Control.Toggle.{Request, automatic, manual}
use publish_carousel.Start.Serve.{
  Event, reads, creates, deletes, sets_throttle, resumes, stops, resets, starts, shuts_down, checks,
  toggles, signals,
}
use publish_carousel.Watcher.{Files, Watching, text_or_empty, read}
use publish_carousel.Start.Watching.{
  Program, watches_toggle, watches_environments, watches_credentials, file_of, Activity, ticks,
  serves, program_files,
}

abbrev pub is_toggle : Event → Bool
is_toggle (toggles value r) = true
is_toggle _ = false

abbrev pub same_request : Request → Request → Bool
same_request manual manual = true
same_request automatic automatic = true
same_request _ _ = false

-- The values of one toggle among events.
abbrev pub toggle_values : Request → Event → List String
toggle_values r (toggles value q) = if same_request r q then value ∷ [] else []
toggle_values r _ = []

abbrev pub toggled : Request → List Event → List String
toggled r [] = []
toggled r (e ∷ es) = toggle_values r e ++ toggled r es

-- The events that the program serves.
abbrev pub served : List Activity → List Event
served [] = []
served (serves e ∷ more) = e ∷ served more
served (ticks g ∷ more) = served more

abbrev pub IsRequest : Activity → Type 0
IsRequest (serves e) = is_toggle e ≡ false
IsRequest (ticks g) = Unit

pub no_toggle_values : (r : Request) (e : Event) → is_toggle e ≡ false → toggle_values r e ≡ []
no_toggle_values r (toggles value q) h = cc h
no_toggle_values r reads h = refl
no_toggle_values r (creates body) h = refl
no_toggle_values r (deletes id) h = refl
no_toggle_values r (sets_throttle url id body) h = refl
no_toggle_values r (resumes id) h = refl
no_toggle_values r (stops id) h = refl
no_toggle_values r (resets id) h = refl
no_toggle_values r starts h = refl
no_toggle_values r shuts_down h = refl
no_toggle_values r (checks c) h = refl
no_toggle_values r signals h = refl

-- Whether an event comes from outside of the watching goroutines.
abbrev pub is_other : Event → Bool
is_other e = not (is_toggle e)

-- The text held for a toggle after a file was seen with a new value.
pub current-set_key :
    (r : Request) (f v : String) (contents : List (String × String))
    → text_or_empty (get_key (file_of (watches_toggle r)) (set_key f v contents)) ≡ (
        if text_eq f (file_of (watches_toggle r))
        then v
        else text_or_empty (get_key (file_of (watches_toggle r)) contents))
current-set_key r f v contents =
    ap text_or_empty (get_key-set_key f (file_of (watches_toggle r)) v contents)
    ∙ split (text_eq f (file_of (watches_toggle r)))
  where
    split :
        (b : Bool)
        → text_or_empty (if b then some v else get_key (file_of (watches_toggle r)) contents)
          ≡ (if b then v else text_or_empty (get_key (file_of (watches_toggle r)) contents))
    split true = refl
    split false = refl

module _ {V W U : Type 0} (files : Files V) (paths : List (String × String)) where
  -- What the watcher holds for the file of a toggle.
  abbrev pub current : Request → Watching (Program V W U) → String
  current r s = text_or_empty (get_key (file_of (watches_toggle r)) s.file_contents)

  -- What one step reads from the file of a toggle, for its goroutine.
  abbrev pub readings_by : Request → Activity → Watching (Program V W U) → List (Error ⊎ String)
  readings_by r (serves e) s = []
  readings_by r (ticks (watches_toggle q)) s =
      if same_request r q
      then (read files paths (file_of (watches_toggle q)) s.world.files_world).1 ∷ []
      else []
  readings_by r (ticks watches_environments) s = []
  readings_by r (ticks watches_credentials) s = []

  pub read-program_files :
      (f : String) (p : Program V W U)
      → read (program_files files) paths f p ≡ (
        record p { files_world = (read files paths f p.files_world).0 },
        (read files paths f p.files_world).1,
      )
  unfolding read
  read-program_files f p = elim (Bool-cases (text_eq (text_or_empty (get_key f paths)) "")) [
    | inl e ↦ rw e refl
    | inr e ↦ rw e refl
  ]
