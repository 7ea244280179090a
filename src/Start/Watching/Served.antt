-- ===== src/Start/Watching/Served.antt =====
-- main.go: what the scheduler of the program becomes, as a run of events.
use mathlib.Core.List.{append_assoc}
use publish_carousel.Prelude.{
  String, ◌≡◌, refl, sym, ap, ◌∙◌, Bool, true, false, List, [], ◌∷◌, ◌++◌, ◌⊎◌, inl, inr, Error,
  if◌then◌else◌, text_eq, keep, All, Bool-cases,
}
use publish_carousel.Cluster.Environments.{set_key, get_key}
use publish_carousel.Scheduler.Duration.{DurationText}
use publish_carousel.Scheduler.Control.{Scheduler, MetadataReadWriter}
use publish_carousel.Scheduler.Control.Toggle.{Request, automatic, manual}
use publish_carousel.Start.Serve.{Event, toggles, serve_one, serve}
use publish_carousel.Start.Serve.Runs.{serve-append}
use publish_carousel.Watcher.{Files, Watching, text_or_empty, after_read, tick}
use publish_carousel.Watcher.Changes.{changes}
use publish_carousel.Start.Watching.{
  Program, Goroutine, watches_toggle, watches_environments, watches_credentials, file_of, Activity,
  ticks, serves, program_files, on_change, act, run_program,
}
use publish_carousel.Start.Watching.Follows.{
  is_other, same_request, toggle_values, toggled, served, IsRequest, no_toggle_values,
  current-set_key, current, readings_by, read-program_files,
}

pub keep-append {ℓ} :
    {A : Type ℓ} (p : A → Bool) (xs ys : List A) → keep p (xs ++ ys) ≡ keep p xs ++ keep p ys
keep-append p [] ys = refl
keep-append p (x ∷ xs) ys = elim (Bool-cases (p x)) [
  | inl e ↦ rw e (ap (◌∷◌ x) (keep-append p xs ys))
  | inr e ↦ rw e (keep-append p xs ys)
]

pub toggled-append :
    (r : Request) (xs ys : List Event) → toggled r (xs ++ ys) ≡ toggled r xs ++ toggled r ys
toggled-append r [] ys = refl
toggled-append r (e ∷ xs) ys =
    ap (λ l. toggle_values r e ++ l) (toggled-append r xs ys)
    ∙ sym (append_assoc (toggle_values r e) (toggled r xs) (toggled r ys))

environments_apart :
    (r : Request) → text_eq (file_of watches_environments) (file_of (watches_toggle r)) ≡ false
environments_apart manual = refl
environments_apart automatic = refl

credentials_apart :
    (r : Request) → text_eq (file_of watches_credentials) (file_of (watches_toggle r)) ≡ false
credentials_apart manual = refl
credentials_apart automatic = refl

module _ {V W U : Type 0} (files : Files V) (paths : List (String × String))
    (parse_url : String → Error ⊎ U) (rw' : MetadataReadWriter W) (d : DurationText)
    (digest : String → String) (to_json : List String → String) where
  abbrev Running : Type 0
  Running = Watching (Program V W U)

  abbrev next : Activity → Running → Running
  next = act files paths parse_url rw' d digest to_json

  abbrev served_as : List Event → Running → Scheduler × W
  served_as es s = serve rw' d digest to_json es s.world.scheduler

  -- `es` is what leads from `s` to `s'`: `heard` of it was served, and the rest is the changes of
  -- the toggles, by the readings that were made of each.
  abbrev Explains :
      Running → Running → List Event → List Event → (Request → List (Error ⊎ String)) → Type 0
  Explains s s' es heard got =
      (s'.world.scheduler ≡ served_as es s)
      × (keep is_other es ≡ heard)
      × ((r : Request) (rs : List (Error ⊎ String))
          → toggled r es ++ changes (current files paths r s') rs
            ≡ changes (current files paths r s) (got r ++ rs))

  -- The program after a goroutine has read its file.
  abbrev seen : Goroutine → Running → V → Error ⊎ String → Running
  seen g s v x =
      after_read (program_files files) (on_change files paths parse_url rw' d digest to_json g)
        (file_of g) s.file_contents (record s.world { files_world = v }, x)

  abbrev heard_by : Request → Error ⊎ String → Request → List (Error ⊎ String)
  heard_by q x r = if same_request r q then x ∷ [] else []

  error_passed :
      (b : Bool) (e : Error) (c : String) (rs : List (Error ⊎ String))
      → changes c rs ≡ changes c ((if b then inl e ∷ [] else []) ++ rs)
  error_passed true e c rs = refl
  error_passed false e c rs = refl

  old_passed :
      (q r : Request) (v : String) (s : Running) (rs : List (Error ⊎ String))
      → text_eq v (current files paths q s) ≡ true
      → changes (current files paths r s) rs
        ≡ changes (current files paths r s) (heard_by q (inr v) r ++ rs)
  old_passed manual manual v s rs h = rw h refl
  old_passed manual automatic v s rs h = refl
  old_passed automatic manual v s rs h = refl
  old_passed automatic automatic v s rs h = rw h refl

  new_heard :
      (q r : Request) (v : String) (s s' : Running) (rs : List (Error ⊎ String))
      → s'.file_contents ≡ set_key (file_of (watches_toggle q)) v s.file_contents
      → text_eq v (current files paths q s) ≡ false
      → toggled r (toggles v q ∷ []) ++ changes (current files paths r s') rs
        ≡ changes (current files paths r s) (heard_by q (inr v) r ++ rs)
  new_heard q r v s s' rs e h =
      ap (λ c. toggled r (toggles v q ∷ []) ++ changes c rs)
        (ap (λ m. text_or_empty (get_key (file_of (watches_toggle r)) m)) e
          ∙ current-set_key r (file_of (watches_toggle q)) v s.file_contents)
      ∙ cases q r h
    where
      cases :
          (q r : Request)
          → text_eq v (current files paths q s) ≡ false
          → toggled r (toggles v q ∷ [])
              ++ changes
                  (if text_eq (file_of (watches_toggle q)) (file_of (watches_toggle r))
                    then v
                    else current files paths r s)
                  rs
            ≡ changes (current files paths r s) (heard_by q (inr v) r ++ rs)
      cases manual manual h = rw h refl
      cases manual automatic h = refl
      cases automatic manual h = refl
      cases automatic automatic h = rw h refl

  seen_toggle :
      (q : Request) (s : Running) (v : V) (x : Error ⊎ String)
      → (es : List Event) × Explains s (seen (watches_toggle q) s v x) es [] (heard_by q x)
  unfolding serve on_change serve_one
  seen_toggle q s v (inl e) =
      ([], (refl, refl, λ r rs. error_passed (same_request r q) e (current files paths r s) rs))
  seen_toggle q s v (inr value) = elim (Bool-cases (text_eq value (current files paths q s))) [
    | inl old ↦ ([], (rw old refl, refl, λ r rs. rw old (old_passed q r value s rs old)))
    | inr new ↦ (
      toggles value q ∷ [],
      (
        rw new refl,
        refl,
        λ r rs.
            new_heard q r value s (seen (watches_toggle q) s v (inr value)) rs (rw new refl) new,
      ),
    )
  ]

  -- The other files say nothing of the toggles.
  seen_other :
      (g : Goroutine) (s : Running) (v : V) (x : Error ⊎ String)
      → ((r : Request) → text_eq (file_of g) (file_of (watches_toggle r)) ≡ false)
      → ((value : String) (p : Program V W U)
          → (on_change files paths parse_url rw' d digest to_json g value p).0.scheduler
            ≡ p.scheduler)
      → Explains s (seen g s v x) [] [] (λ r. [])
  unfolding serve
  seen_other g s v (inl e) apart same = (refl, refl, λ r rs. refl)
  seen_other g s v (inr value) apart same =
      elim (Bool-cases (text_eq value (text_or_empty (get_key (file_of g) s.file_contents)))) [
        | inl old ↦ (rw old refl, refl, λ r rs. rw old refl)
        | inr new ↦ (
          rw new (same value (record s.world { files_world = v })),
          refl,
          λ r rs. rw new (
              ap (λ c. changes c rs)
                (current-set_key r (file_of g) value s.file_contents ∙ rw (apart r) refl)),
        )
      ]

  act-Explains :
      (a : Activity) (s : Running)
      → IsRequest a
      → (es : List Event) × Explains s
          (next a s)
          es
          (served (a ∷ []))
          (λ r. readings_by files paths r a s)
  unfolding act serve tick on_change
  act-Explains (serves e) s h = (
    e ∷ [],
    (
      refl,
      rw h refl,
      λ r rs. ap (λ l. (l ++ []) ++ changes (current files paths r s) rs) (no_toggle_values r e h),
    ),
  )
  act-Explains (ticks (watches_toggle q)) s h =
      rw (read-program_files files paths (file_of (watches_toggle q)) s.world) (seen_toggle q s _ _)
  act-Explains (ticks watches_environments) s h =
      rw (read-program_files files paths (file_of watches_environments) s.world)
        ([], seen_other watches_environments s _ _ environments_apart (λ value p. refl))
  act-Explains (ticks watches_credentials) s h =
      rw (read-program_files files paths (file_of watches_credentials) s.world)
        ([], seen_other watches_credentials s _ _ credentials_apart (λ value p. refl))

  -- What the goroutine of a toggle reads from its file, over a run.
  abbrev pub readings : Request → List Activity → Running → List (Error ⊎ String)
  readings r [] s = []
  readings r (a ∷ more) s = readings_by files paths r a s ++ readings r more (next a s)

  served-cons :
      (a : Activity) (more : List Activity) → served (a ∷ more) ≡ served (a ∷ []) ++ served more
  served-cons (serves e) more = refl
  served-cons (ticks g) more = refl

  -- Whatever the order in which the goroutines tick and the requests come: there are events that lead
  -- the scheduler and its store to where the program leads them. Leaving out the toggles, they are the
  -- requests, in order; and the values of each toggle among them are the changes between the readings
  -- of its file, in order.
  pub run_program-serve :
      (activities : List Activity) (s : Running)
      → All IsRequest activities
      → (es : List Event) × ((run_program files paths parse_url rw' d digest to_json activities
            s).world.scheduler
          ≡ serve rw' d digest to_json es s.world.scheduler)
        × (keep is_other es ≡ served activities)
        × ((r : Request)
            → toggled r es ≡ changes (current files paths r s) (readings r activities s))
  unfolding run_program serve
  run_program-serve [] s h = ([], refl, refl, λ r. refl)
  run_program-serve (a ∷ more) s (plain, h) =
      let (first, step) = act-Explains a s plain in
      let (es, led, kept, values) = run_program-serve more (next a s) h in
      (
        first ++ es,
        led
            ∙ ap (serve rw' d digest to_json es) step.0
            ∙ sym (serve-append rw' d digest to_json first es s.world.scheduler),
        keep-append is_other first es
            ∙ ap (λ l. l ++ keep is_other es) step.1
            ∙ ap (λ l. served (a ∷ []) ++ l) kept
            ∙ sym (served-cons a more),
        λ r.
            toggled-append r first es
            ∙ ap (λ l. toggled r first ++ l) (values r)
            ∙ step.2 r (readings r more (next a s)),
      )
