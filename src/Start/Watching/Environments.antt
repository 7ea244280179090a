-- ===== src/Start/Watching/Environments.antt =====
-- cluster/file/read_environments.go in a program that watches its files: a change of the environments
-- or of their credentials is taken up.
use publish_carousel.Prelude.{
  String, ◌≡◌, refl, ap, ◌∙◌, false, List, [], ◌∷◌, ◌⊎◌, inl, inr, Error, text_eq, Bool-cases,
}
use publish_carousel.Cluster.Environments.{ReadEnvironment, parse_environments, get_key}
use publish_carousel.Cluster.External.{on_environments, on_credentials}
use publish_carousel.Scheduler.Duration.{DurationText}
use publish_carousel.Scheduler.Control.{MetadataReadWriter}
use publish_carousel.Scheduler.Control.Toggle.{Request}
use publish_carousel.Watcher.{Files, Watching, text_or_empty, read, after_read, tick}
use publish_carousel.Start.Watching.{
  Program, Goroutine, watches_toggle, watches_environments, watches_credentials, file_of, Activity,
  ticks, serves, program_files, on_change, act, run_program,
}
use publish_carousel.Start.Watching.Follows.{read-program_files}

module _ {V W U : Type 0} (files : Files V) (paths : List (String × String))
    (parse_url : String → Error ⊎ U) (rw' : MetadataReadWriter W) (d : DurationText)
    (digest : String → String) (to_json : List String → String) (urls creds : String) where
  -- From here on the two files are read as these texts.
  pub record IsSettled : Type 0 where
    pub environments_read :
        (v : V) → (read files paths (file_of watches_environments) v).1 ≡ inr urls
    pub credentials_read :
        (v : V) → (read files paths (file_of watches_credentials) v).1 ≡ inr creds

  -- The goroutines of the two files, with the texts that they read.
  pub data Reads : Goroutine → String → Type 0 where
    reads_environments : Reads watches_environments urls
    reads_credentials : Reads watches_credentials creds

  abbrev Running : Type 0
  Running = Watching (Program V W U)

  abbrev change : Goroutine → String → Program V W U → Program V W U
  change g value p = (on_change files paths parse_url rw' d digest to_json g value p).0

  abbrev parsed : List (String × ReadEnvironment U)
  parsed = (parse_environments parse_url urls creds).0

  change-parsed :
      (g : Goroutine) (value : String) (p : Program V W U)
      → IsSettled
      → Reads g value
      → (change g value p).environments ≡ parsed
  unfolding on_change on_environments on_credentials
  change-parsed g value p law reads_environments = rw (law.credentials_read p.files_world) refl
  change-parsed g value p law reads_credentials = rw (law.environments_read p.files_world) refl

  other_change :
      (r : Request) (value : String) (p : Program V W U)
      → (change (watches_toggle r) value p).environments ≡ p.environments
  unfolding on_change
  other_change r value p = refl

  -- The program after a goroutine has read its file.
  abbrev seen : Goroutine → Running → V → Error ⊎ String → Running
  seen g s v x =
      after_read (program_files files) (on_change files paths parse_url rw' d digest to_json g)
        (file_of g) s.file_contents (record s.world { files_world = v }, x)

  abbrev held : Goroutine → Running → String
  held g s = text_or_empty (get_key (file_of g) s.file_contents)

  seen_kept :
      (g : Goroutine) (s : Running) (v : V) (x : Error ⊎ String)
      → ((value : String) (p : Program V W U)
          → x ≡ inr value
          → p.environments ≡ parsed
          → (change g value p).environments ≡ parsed)
      → s.world.environments ≡ parsed
      → (seen g s v x).world.environments ≡ parsed
  seen_kept g s v (inl e) keep h = h
  seen_kept g s v (inr value) keep h = elim (Bool-cases (text_eq value (held g s))) [
    | inl old ↦ rw old h
    | inr new ↦ rw new (keep value (record s.world { files_world = v }) refl h)
  ]

  seen_changed :
      (g : Goroutine) (text : String) (s : Running) (v : V)
      → ((p : Program V W U) → (change g text p).environments ≡ parsed)
      → text_eq text (held g s) ≡ false
      → (seen g s v (inr text)).world.environments ≡ parsed
  seen_changed g text s v takes new = rw new (takes (record s.world { files_world = v }))

  abbrev next : Activity → Running → Running
  next = act files paths parse_url rw' d digest to_json

  inr_eq : (x : Error ⊎ String) (a b : String) → x ≡ inr a → x ≡ inr b → a ≡ b
  inr_eq x a b h k = cc (h, k)

  -- A file with a settled text gives that text.
  takes :
      (g : Goroutine) (text value : String) (p : Program V W U) (x : Error ⊎ String)
      → IsSettled
      → Reads g text
      → x ≡ inr text
      → x ≡ inr value
      → (change g value p).environments ≡ parsed
  takes g text value p x law reads h k =
      ap (λ t. (change g t p).environments) (inr_eq x value text k h)
      ∙ change-parsed g text p law reads

  act_kept :
      (a : Activity) (s : Running)
      → IsSettled
      → s.world.environments ≡ parsed
      → (next a s).world.environments ≡ parsed
  unfolding act tick
  act_kept (serves e) s law h = h
  act_kept (ticks (watches_toggle r)) s law h =
      rw (read-program_files files paths (file_of (watches_toggle r)) s.world)
        (seen_kept (watches_toggle r) s _ _ (λ value p e k. other_change r value p ∙ k) h)
  act_kept (ticks watches_environments) s law h =
      rw (read-program_files files paths (file_of watches_environments) s.world) (
        seen_kept watches_environments s _ _
          (λ value p e k.
            takes watches_environments urls value p _ law reads_environments
              (law.environments_read s.world.files_world) e)
          h)
  act_kept (ticks watches_credentials) s law h =
      rw (read-program_files files paths (file_of watches_credentials) s.world) (
        seen_kept watches_credentials s _ _
          (λ value p e k.
            takes watches_credentials creds value p _ law reads_credentials
              (law.credentials_read s.world.files_world) e)
          h)

  run_kept :
      (activities : List Activity) (s : Running)
      → IsSettled
      → s.world.environments ≡ parsed
      → (run_program files paths parse_url rw' d digest to_json activities s).world.environments
        ≡ parsed
  unfolding run_program
  run_kept [] s law h = h
  run_kept (a ∷ more) s law h = run_kept more (next a s) law (act_kept a s law h)

  act_changed :
      (g : Goroutine) (text : String) (s : Running)
      → IsSettled
      → Reads g text
      → text_eq text (held g s) ≡ false
      → (next (ticks g) s).world.environments ≡ parsed
  unfolding act tick
  act_changed g text s law reads_environments new =
      rw
        (
          read-program_files files paths (file_of watches_environments) s.world,
          law.environments_read s.world.files_world,
        )
        (seen_changed watches_environments urls s _
          (λ p. change-parsed watches_environments urls p law reads_environments) new)
  act_changed g text s law reads_credentials new =
      rw
        (
          read-program_files files paths (file_of watches_credentials) s.world,
          law.credentials_read s.world.files_world,
        )
        (seen_changed watches_credentials creds s _
          (λ p. change-parsed watches_credentials creds p law reads_credentials) new)

  -- Once the files of the environments and of their credentials are read as the same texts each time:
  -- where the watcher holds another text for one of the two files, the next tick of its goroutine
  -- gives the program the environments that are parsed from the two texts, and whatever the program
  -- does then, it keeps them.
  pub run_program-parse_environments :
      (g : Goroutine) (text : String) (activities : List Activity) (s : Running)
      → IsSettled
      → Reads g text
      → text_eq text (held g s) ≡ false
      → (run_program files paths parse_url rw' d digest to_json
          (ticks g ∷ activities)
          s).world.environments
        ≡ (parse_environments parse_url urls creds).0
  unfolding run_program
  run_program-parse_environments g text activities s law reads new =
      run_kept activities (next (ticks g) s) law (act_changed g text s law reads new)
