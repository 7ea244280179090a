-- ===== src/Scheduler/LoadFile.antt =====
-- scheduler/config.go: `LoadSchedulerFromFile`. The file's bytes and the YAML decoder are given.
pub mod Counts
pub mod Fresh
use publish_carousel.Prelude.{
  ◌⊎◌, inl, inr, String, List, [], ◌∷◌, ◌++◌, Option, none, some, Error, Result, ok, err, panic,
}
use publish_carousel.Prelude.Int.{ℤ}
use publish_carousel.Scheduler.Duration.{DurationText}
use publish_carousel.Scheduler.Cycle.{Cycle}
use publish_carousel.Scheduler.Config.{CycleConfig, new_cycle, combine_config_errors}
use publish_carousel.Scheduler.Control.{Scheduler, new_scheduler, add_cycle}

abbrev pub after_add : List Error → Scheduler × Option Error → Scheduler × List Error
after_add errs (s, none) = (s, errs)
after_add errs (s, some e) = (s, errs ++ e ∷ [])

module _ (d : DurationText) (digest : String → String) where
  -- One round of the loop, after `NewCycle`; a nil cycle panics in `AddCycle`.
  abbrev pub load_one :
      Scheduler → List Error → Result (Option Cycle) → Result (Scheduler × List Error)
  load_one s errs (err e) = ok (s, errs ++ e ∷ [])
  load_one s errs panic = panic
  load_one s errs (ok none) = panic
  load_one s errs (ok (some c)) = ok (after_add errs (add_cycle c s))

  unfoldable pub load_cycles :
      List CycleConfig → Scheduler × List Error → Result (Scheduler × List Error)
  load_cycles [] a = ok a
  load_cycles (config ∷ configs) (s, errs) =
      elim (load_one s errs (new_cycle d digest s.default_throttle config)) [
        | ok a ↦ load_cycles configs a
        | err e ↦ err e
        | panic ↦ panic
      ]

  abbrev pub with_errors : Result (Scheduler × List Error) → Result (Scheduler × Option Error)
  with_errors (ok (s, errs)) = ok (s, combine_config_errors errs)
  with_errors (err e) = err e
  with_errors panic = panic

  abbrev pub load_setup : Scheduler → Error ⊎ List CycleConfig → Result (Scheduler × Option Error)
  load_setup s (inl e) = ok (s, some e)
  load_setup s (inr []) = ok (s, some "No configured cycles")
  load_setup s (inr (c ∷ cs)) = with_errors (load_cycles (c ∷ cs) (s, []))

  abbrev pub load_file :
      {B : Type 0}
      → (B → Error ⊎ List CycleConfig)
      → Scheduler
      → Error ⊎ B
      → Result (Scheduler × Option Error)
  load_file unmarshal s (inl e) = ok (s, some e)
  load_file unmarshal s (inr bytes) = load_setup s (unmarshal bytes)

  -- `LoadSchedulerFromFile`, of what reading the file gave.
  unfoldable pub load_scheduler :
      {B : Type 0}
      → (B → Error ⊎ List CycleConfig)
      → Error ⊎ B
      → ℤ
      → Result (Scheduler × Option Error)
  unfolding load_cycles
  load_scheduler unmarshal file default_throttle =
      load_file unmarshal (new_scheduler default_throttle) file
