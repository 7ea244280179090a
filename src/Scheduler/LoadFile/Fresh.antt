-- ===== src/Scheduler/LoadFile/Fresh.antt =====
-- scheduler/config.go: a scheduler that was just loaded is in the state of a new one.
use publish_carousel.Prelude.{
  ◌⊎◌, inl, inr, ◌≡◌, refl, subst, ◌∙◌, String, List, [], ◌∷◌, Option, none, some, Error, Result,
  ok, err, panic,
}
use publish_carousel.Prelude.Int.{ℤ}
use publish_carousel.Scheduler.Duration.{DurationText}
use publish_carousel.Scheduler.Mode.{SchedulerState, new_scheduler_state}
use publish_carousel.Scheduler.Cycle.{Cycle}
use publish_carousel.Scheduler.Config.{CycleConfig, new_cycle}
use publish_carousel.Scheduler.Control.{Scheduler, new_scheduler, add_cycle}
use publish_carousel.Scheduler.Control.Life.{add_cycle-state}
use publish_carousel.Scheduler.LoadFile.{
  after_add, load_one, load_cycles, with_errors, load_setup, load_file, load_scheduler,
}

after_add-state :
    (errs : List Error) (a : Scheduler × Option Error) → (after_add errs a).0.state ≡ a.0.state
after_add-state errs (s, none) = refl
after_add-state errs (s, some e) = refl

-- Where it returns, the scheduler is in this state.
abbrev Leaves : {E : Type 0} → SchedulerState → Result (Scheduler × E) → Type 0
Leaves t (ok a) = a.0.state ≡ t
Leaves t (err e) = Unit
Leaves t panic = Unit

module _ (d : DurationText) (digest : String → String) where
  load_one-Leaves :
      (s : Scheduler) (errs : List Error) (r : Result (Option Cycle))
      → Leaves s.state (load_one d digest s errs r)
  load_one-Leaves s errs (err e) = refl
  load_one-Leaves s errs panic = tt
  load_one-Leaves s errs (ok none) = tt
  load_one-Leaves s errs (ok (some c)) =
      after_add-state errs (add_cycle c s) ∙ (add_cycle-state c s).0

  load_cycles-after :
      (c : CycleConfig) (cs : List CycleConfig) (s : Scheduler) (errs : List Error)
      (r : Result (Scheduler × List Error))
      → ((a : Scheduler × List Error) → Leaves a.0.state (load_cycles d digest cs a))
      → load_one d digest s errs (new_cycle d digest s.default_throttle c) ≡ r
      → Leaves s.state r
      → Leaves s.state (load_cycles d digest (c ∷ cs) (s, errs))
  unfolding load_cycles
  load_cycles-after c cs s errs (ok a) rest one h =
      rw (one, load_cycles) (subst (λ t. Leaves t (load_cycles d digest cs a)) h (rest a))
  load_cycles-after c cs s errs (err e) rest one h = rw (one, load_cycles) tt
  load_cycles-after c cs s errs panic rest one h = rw (one, load_cycles) tt

  load_cycles-Leaves :
      (cs : List CycleConfig) (a : Scheduler × List Error)
      → Leaves a.0.state (load_cycles d digest cs a)
  unfolding load_cycles
  load_cycles-Leaves [] a = refl
  load_cycles-Leaves (c ∷ cs) (s, errs) =
      load_cycles-after c cs s errs _ (load_cycles-Leaves cs) refl (load_one-Leaves s errs _)

  with_errors-Leaves :
      (t : SchedulerState) (r : Result (Scheduler × List Error))
      → Leaves t r
      → Leaves t (with_errors d digest r)
  with_errors-Leaves t (ok a) h = h
  with_errors-Leaves t (err e) h = tt
  with_errors-Leaves t panic h = tt

  load_setup-Leaves :
      (s : Scheduler) (setup : Error ⊎ List CycleConfig)
      → Leaves s.state (load_setup d digest s setup)
  load_setup-Leaves s (inl e) = refl
  load_setup-Leaves s (inr []) = refl
  load_setup-Leaves s (inr (c ∷ cs)) =
      with_errors-Leaves s.state _ (load_cycles-Leaves (c ∷ cs) (s, []))

  pub load_scheduler-state :
      {B : Type 0} (unmarshal : B → Error ⊎ List CycleConfig) (file : Error ⊎ B) (throttle : ℤ)
      (a : Scheduler × Option Error)
      → load_scheduler d digest unmarshal file throttle ≡ ok a
      → a.0.state ≡ new_scheduler_state
  unfolding load_scheduler new_scheduler
  load_scheduler-state {B} unmarshal file throttle a h =
      subst (Leaves new_scheduler_state) h (leaves file)
    where
      leaves :
          (file : Error ⊎ B)
          → Leaves new_scheduler_state (load_file d digest unmarshal (new_scheduler throttle) file)
      leaves (inl e) = refl
      leaves (inr bytes) = load_setup-Leaves (new_scheduler throttle) (unmarshal bytes)
