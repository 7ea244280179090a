-- ===== src/Examples/Interleaving.antt =====
-- A cycle that is stopped, or reset, while its task has an item.
use publish_carousel.Prelude.{
  ◌+◌, ◌≤◌, ◌≡◌, refl, ◌⊎◌, true, false, List, [], ◌∷◌, none, some, is_blank,
}
use publish_carousel.Scheduler.Metadata.{blank_metadata}
use publish_carousel.Scheduler.Interleaved.{
  publishing, checked, gone, idle, Shared, Act, takes, prepares, counts, other, Step, next,
  prepared, interrupted, progress, left, cancels, updates, Runs, here, later,
}
use publish_carousel.Scheduler.Interleaved.Stopping.{
  taken, handed, counted, to_take, to_hand, to_count, Runs-cancelled,
}
use publish_carousel.Scheduler.Interleaved.Quiet.{
  IsQuiet, is_own, own, rank, Runs-goes, Runs-IsQuiet,
}
use publish_carousel.Scheduler.Interleaved.Resetting.{Leaves, publishing-Leaves}

abbrev at_task : Shared
at_task = record {
  metadata = blank_metadata;
  cancelled = false;
  pc = publishing "u1" ("u2" ∷ []);
  caller = idle;
}

abbrev cancelled : Shared
cancelled = record at_task { cancelled = true; caller = idle }

-- The context is cancelled just after it was tested.
abbrev past_test : Shared
past_test = record cancelled { pc = checked ("u1" ∷ "u2" ∷ []) }

-- A second `Stop` comes between.
abbrev acts : List Act
acts = takes ∷ prepares ∷ counts ∷ other ∷ other ∷ other ∷ other ∷ []

run_out : (t : Shared) × Runs past_test acts t × (t.pc ≡ gone)
unfolding is_blank
run_out = (
  _,
  later (next "u1" ("u2" ∷ []) refl) (
      later (prepared "u1" ("u2" ∷ []) refl refl) (
        later (progress "u1" "tid_1" none ("u2" ∷ []) refl) (
          later (cancels false refl) (
            later (interrupted ("u2" ∷ []) refl refl)
              (later (left false refl) (later (updates false refl) here)))))),
  refl,
)

Runs-cancelled_example :
    ((taken acts + to_take run_out.0.pc ≤ 1) × (to_take past_test.pc ≤ 1))
    × ((handed acts + to_hand run_out.0.pc ≤ 1) × (to_hand past_test.pc ≤ 1))
    × ((counted acts + to_count run_out.0.pc ≤ 1) × (to_count past_test.pc ≤ 1))
Runs-cancelled_example = Runs-cancelled run_out.1 refl

Runs-goes_example :
    (own run_out.1 + rank run_out.0.pc ≤ 8)
    × (rank past_test.pc ≤ 8)
    × ((run_out.0.pc ≡ gone)
        ⊎ ((a : Act) × (u : Shared) × (step : Step run_out.0 a u) × (is_own step ≡ 1)))
Runs-goes_example = Runs-goes run_out.1 refl

Runs-IsQuiet_example : IsQuiet run_out.0.metadata.state
Runs-IsQuiet_example = Runs-IsQuiet run_out.1 (λ e. cc e) run_out.2

publishing-Leaves_example : Leaves at_task 1
publishing-Leaves_example =
    publishing-Leaves at_task "u1" "tid_1" (some "the notifier was down") ("u2" ∷ []) refl refl
