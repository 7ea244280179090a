-- ===== src/Examples/Started.antt =====
-- A program that is started from files, and that watches them.
use publish_carousel.Prelude.{
  ℕ, ◌+◌, String, ◌≡◌, refl, List, [], ◌∷◌, map, none, ◌⊎◌, inr, Error, if◌then◌else◌, text_eq, ltb,
  keep, All,
}
use publish_carousel.Scheduler.Mode.{running, new_scheduler_state, is_running}
use publish_carousel.Scheduler.Control.Toggle.{Request, automatic, manual}
use publish_carousel.Scheduler.Control.Life.{IsWell}
use publish_carousel.Watcher.{Files, Watching, read}
use publish_carousel.Watcher.Changes.{changes}
use publish_carousel.Cluster.Environments.{get_key}
use publish_carousel.Start.{start_up}
use publish_carousel.Start.Serve.{Event, starts, reads, serve}
use publish_carousel.Start.Watching.{
  Program, Goroutine, watches_toggle, watches_environments, Activity, ticks, serves, act,
  run_program,
}
use publish_carousel.Start.Watching.Follows.{is_other, toggled, current}
use publish_carousel.Start.Watching.Served.{readings, run_program-serve}
use publish_carousel.Start.Watching.Settled.{Says, chosen, run_program-start_up}
use publish_carousel.Start.Watching.Environments.{
  IsSettled, reads_environments, run_program-parse_environments,
}
use publish_carousel.Cluster.Environments.{parse_environments}
use publish_carousel.Start.Flags.{flags, Context, read_options}
use publish_carousel.Start.Flags.Declared.{read_options-declared}
use publish_carousel.Examples.Configs.{all_minutes}
use publish_carousel.Examples.Schedules.{with_one}
use publish_carousel.Examples.Starting.{loaded}
use publish_carousel.Examples.Restarts.{Shelves, shelves, nothing}

-- The world of the files is the number of readings so far. The toggle goes off after the sixth.
abbrev content : String → ℕ → Error ⊎ String
content path n =
    if text_eq path "/configs/toggle"
    then (if ltb n 6 then inr "true" else inr "false")
    else if text_eq path "/configs/active-cluster"
    then inr "true"
    else if text_eq path "/configs/read.environments"
    then inr "us:https://us"
    else inr ""

abbrev disk : Files ℕ
disk = record {
  walk = λ folder n. (n, inr []);
  read_file = λ path n. (n + 1, content path n);
  ctx_err = λ n. none;
}

abbrev paths : List (String × String)
paths =
    ("toggle", "/configs/toggle")
    ∷ ("active-cluster", "/configs/active-cluster")
    ∷ ("read.environments", "/configs/read.environments")
    ∷ ("read.credentials", "/configs/credentials/read.credentials")
    ∷ []

abbrev parse_text : String → Error ⊎ String
parse_text s = inr s

abbrev begun : Watching (Program ℕ Shelves String)
begun = record {
  world = record {
    files_world = 0;
    scheduler = start_up shelves "true" "true" loaded nothing;
    environments = [];
  };
  file_contents = [];
}

abbrev both : List Goroutine
both = watches_toggle manual ∷ watches_toggle automatic ∷ []

-- With the text of the body left as it is.
abbrev same : String → String
same text = text

abbrev no_json : List String → String
no_json l = "[]"

unchanged :
    (r : Request)
    → All
        (Says (chosen r "true" "true"))
        (readings disk paths parse_text shelves all_minutes same no_json r (map ticks both) begun)
unfolding act read get_key
unchanged manual = (refl, tt)
unchanged automatic = (refl, tt)

run_program-start_up_example :
    (run_program disk paths parse_text shelves all_minutes same no_json
      (map ticks both)
      begun).world.scheduler
    ≡ start_up shelves "true" "true" loaded nothing
unfolding new_scheduler_state
run_program-start_up_example =
    run_program-start_up disk paths parse_text shelves all_minutes same no_json "true" "true" loaded
      nothing both begun refl refl unchanged

abbrev activities : List Activity
activities =
    ticks (watches_toggle manual)
    ∷ serves starts
    ∷ ticks watches_environments
    ∷ ticks (watches_toggle automatic)
    ∷ ticks (watches_toggle manual)
    ∷ serves reads
    ∷ ticks (watches_toggle manual)
    ∷ []

run_program-serve_example :
    (es : List Event) × ((run_program disk paths parse_text shelves all_minutes same no_json
        activities begun).world.scheduler
      ≡ serve shelves all_minutes same no_json es begun.world.scheduler)
    × (keep is_other es ≡ starts ∷ reads ∷ [])
    × ((r : Request)
        → toggled r es
          ≡ changes
              (current disk paths r begun)
              (readings disk paths parse_text shelves all_minutes same no_json r activities begun))
run_program-serve_example =
    run_program-serve disk paths parse_text shelves all_minutes same no_json activities begun
      (tt, (refl, (tt, (tt, (tt, (refl, (tt, tt)))))))

running_one-IsWell : IsWell (with_one running 1)
unfolding is_running
running_one-IsWell = record { checkpointed = refl; known = λ e. cc e }

-- A command line that gives nothing.
abbrev unset : Context
unset = record {
  string = λ name. if text_eq name "etcd-key" then "a" else "";
  int = λ name. 1;
  string_slice = λ name. "NOT_AVAILABLE" ∷ [];
}

abbrev unset_too : Context
unset_too = record {
  string = λ name. "";
  int = λ name. 1;
  string_slice = λ name. "NOT_AVAILABLE" ∷ [];
}

read_options-declared_example : read_options unset ≡ read_options unset_too
unfolding flags
read_options-declared_example = read_options-declared unset unset_too (
  refl,
  (
    refl,
    (
      refl,
      (
        refl,
        (
          refl,
          (
            refl,
            (
              refl,
              (
                refl,
                (
                  refl,
                  (
                    refl,
                    (refl, (refl, (refl, (refl, (refl, (refl, (refl, (refl, (refl, tt))))))))),
                  ),
                ),
              ),
            ),
          ),
        ),
      ),
    ),
  ),
)

settled :
    IsSettled {W = Shelves} disk paths parse_text shelves all_minutes same no_json "us:https://us"
      ""
unfolding read get_key
settled = record { environments_read = λ n. refl; credentials_read = λ n. refl }

run_program-parse_environments_example :
    (run_program disk paths parse_text shelves all_minutes same no_json
      (ticks watches_environments ∷ activities)
      begun).world.environments
    ≡ (parse_environments parse_text "us:https://us" "").0
unfolding get_key
run_program-parse_environments_example =
    run_program-parse_environments disk paths parse_text shelves all_minutes same no_json
      "us:https://us" "" watches_environments "us:https://us" activities begun settled
      reads_environments refl
