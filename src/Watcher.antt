-- ===== src/Watcher.antt =====
-- file/watcher.go: a file that is read again and again, and a callback for its new values.
-- The folders and files are a parameter over the world `W`. A map is an association list.
pub mod Changes
pub mod Etcd
use publish_carousel.Prelude.{
  ℕ, zero, suc, String, Bool, true, false, not, ◌&&◌, List, [], ◌∷◌, ◌++◌, Option, none, some, ◌⊎◌,
  inl, inr, Error, Result, if◌then◌else◌, concat, text_eq, is_nil, starts_with,
}
use publish_carousel.Cluster.Environments.{set_key, get_key}

-- What `filepath.Walk` visits.
pub record FileInfo : Type 0 where
  pub path : String
  pub name : String
  pub is_dir : Bool

unfoldable pub add_paths : List FileInfo → List (String × String) → List (String × String)
unfolding set_key
add_paths [] paths = paths
add_paths (info ∷ infos) paths = add_paths infos (
    if not info.is_dir && not (starts_with "." info.name)
    then set_key info.name info.path paths
    else paths)

abbrev pub text_or_empty : Option String → String
text_or_empty none = ""
text_or_empty (some s) = s

-- The files of a program, and what a callback does.
pub record Files (W : Type 0) : Type 0 where
  pub walk : String → W → W × (Error ⊎ List FileInfo)
  pub read_file : String → W → W × (Error ⊎ String)
  pub ctx_err : W → Option Error

-- A watching goroutine's world, and the map `fileContents`.
pub record Watching (W : Type 0) : Type 0 where
  pub world : W
  pub file_contents : List (String × String)

module _ {W : Type 0} (files : Files W) where
  abbrev walk_all : List String → List (String × String) → W → W × (Error ⊎ List (String × String))
  walk_all [] paths w = (w, inr paths)
  walk_all (folder ∷ folders) paths w = elim (files.walk folder w).1 [
    | inl e ↦ ((files.walk folder w).0, inl e)
    | inr infos ↦ walk_all folders (add_paths infos paths) (files.walk folder w).0
  ]

  abbrev some_paths : W × (Error ⊎ List (String × String)) → W × (Error ⊎ List (String × String))
  some_paths (w, inl e) = (w, inl e)
  some_paths (w, inr paths) =
      (w, if is_nil paths then inl "Didn't find any files to watch!" else inr paths)

  -- `NewFileWatcher`: the paths of the files.
  unfoldable pub new_file_watcher : List String → W → W × (Error ⊎ List (String × String))
  unfolding add_paths
  new_file_watcher folders w =
      if is_nil folders
      then (w, inl "No folders were provided!")
      else some_paths (walk_all folders [] w)

  abbrev wrapped : String → Error ⊎ String → Error ⊎ String
  wrapped file_name (inl e) =
      inl (concat ("Error reading contents of file [" ∷ file_name ∷ "]: " ∷ e ∷ []))
  wrapped file_name (inr data_text) = inr data_text

  -- `Read`
  unfoldable pub read : List (String × String) → String → W → W × (Error ⊎ String)
  unfolding get_key
  read paths file_name w =
      let path = text_or_empty (get_key file_name paths) in
      let a = files.read_file path w in
      if text_eq path ""
      then (w, inl (concat ("File [" ∷ file_name ∷ "] doesn't exist!" ∷ [])))
      else (a.0, wrapped file_name a.1)

module _ {W : Type 0} (files : Files W) (callback : String → W → W × Result (Unit {0})) where
  -- `runCallback`: a panic of the callback is recovered.
  abbrev pub run_callback : String → W → W
  run_callback value w = (callback value w).0

  abbrev pub after_read : String → List (String × String) → W × (Error ⊎ String) → Watching W
  after_read file_name contents (w, inl e) = record { world = w; file_contents = contents }
  after_read file_name contents (w, inr value) =
      if not (text_eq value (text_or_empty (get_key file_name contents)))
      then record { world = run_callback value w; file_contents = set_key file_name value contents }
      else record { world = w; file_contents = contents }

  -- One tick of the loop of `Watch`.
  unfoldable pub tick : List (String × String) → String → Watching W → Watching W
  unfolding read set_key get_key
  tick paths file_name s = after_read file_name s.file_contents (read files paths file_name s.world)

  -- `Watch` for a number of ticks; it ends where the context is done.
  unfoldable pub watch : ℕ → List (String × String) → String → Watching W → Watching W
  unfolding tick
  watch zero paths file_name s = s
  watch (suc n) paths file_name s =
      let next = watch n paths file_name (tick paths file_name s) in
      elim (files.ctx_err s.world) [ none ↦ next | some e ↦ s ]
