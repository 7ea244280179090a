-- ===== src/Scheduler/Publish/Stopped.antt =====
-- scheduler/cycle.go: why `publishCollection` says that it was stopped.
use publish_carousel.Prelude.{
  ℕ, zero, suc, String, ◌≡◌, ◌≢◌, refl, subst, true, false, Option, none, some, Error, Result, ok,
  err, panic, Bool-cases, inl, inr, is_blank, arith,
}
use publish_carousel.Native.Content.{Content}
use publish_carousel.Native.Collection.{Next}
use publish_carousel.Scheduler.Metadata.{CycleMetadata}
use publish_carousel.Scheduler.Publish.{
  Publisher, Run, Exit, exit, crashed, Step, again, leave, after_execute, after_prepare,
  publish_uuid, after_next, after_ctx, publish_step, publish_collection,
}

-- A stop is told of only with an error of the context, in the world that the loop leaves.
abbrev pub WhenDone : {W S : Type 0} → Publisher W S → Run W S → Exit → Type 0
WhenDone p r (exit true e) = (p.ctx_err r.world ≡ e) × (e ≢ none)
WhenDone p r (exit false e) = Unit
WhenDone p r crashed = Unit

abbrev StepWhenDone : {W S : Type 0} → Publisher W S → Step W S → Type 0
StepWhenDone p (again r) = Unit
StepWhenDone p (leave r x) = WhenDone p r x

module _ {W S : Type 0} (p : Publisher W S) where
  execute_quiet :
      (uuid tx : String) (s : S) (m : CycleMetadata) (a : W × Result (Unit {0}))
      → StepWhenDone p (after_execute p uuid tx s m a)
  execute_quiet uuid tx s m (w, ok _) = tt
  execute_quiet uuid tx s m (w, err e) = tt
  execute_quiet uuid tx s m (w, panic) = tt

  prepare_quiet :
      (uuid : String) (s : S) (m : CycleMetadata) (a : W × Result (Content × String))
      → StepWhenDone p (after_prepare p uuid s m a)
  prepare_quiet uuid s m (w, ok (content, tx)) = execute_quiet uuid tx s m _
  prepare_quiet uuid s m (w, err e) = tt
  prepare_quiet uuid s m (w, panic) = tt

  uuid_quiet :
      (uuid : String) (s : S) (m : CycleMetadata) (w : W)
      → StepWhenDone p (publish_uuid p uuid s m w)
  unfolding publish_uuid
  uuid_quiet uuid s m w = elim (Bool-cases (is_blank uuid)) [
    | inl blank ↦ rw blank tt
    | inr full ↦ rw full (prepare_quiet uuid s m (p.task.prepare p.collection uuid w))
  ]

  next_quiet :
      (m : CycleMetadata) (w : W) (a : S × Option Next) → StepWhenDone p (after_next p m w a)
  unfolding after_next
  next_quiet m w (s, none) = tt
  next_quiet m w (s, some n) = elim (Bool-cases n.finished) [
    | inl last ↦ rw last tt
    | inr more ↦ rw more (uuid_quiet n.uuid s m w)
  ]

  ctx_done :
      (s : S) (m : CycleMetadata) (w : W) (o : Option Error)
      → p.ctx_err w ≡ o
      → StepWhenDone p (after_ctx p s m w o)
  ctx_done s m w (some e) h = (h, λ k. cc k)
  ctx_done s m w none h = next_quiet m w (p.source.next s)

  step_done : (r : Run W S) → StepWhenDone p (publish_step p r)
  unfolding publish_step
  step_done r = ctx_done r.rest r.metadata (p.queue r.world) _ refl

  by_step :
      (fuel : ℕ) (r q : Run W S) (x : Exit) (s : Step W S)
      → publish_step p r ≡ s
      → StepWhenDone p s
      → ((r' : Run W S) → publish_collection p fuel r' ≡ some (q, x) → WhenDone p q x)
      → publish_collection p (suc fuel) r ≡ some (q, x)
      → WhenDone p q x
  unfolding publish_collection
  by_step fuel r q x (again r') e d rec h = rec r' (ground (arith, e, h))
  by_step fuel r q x (leave r' y) e d rec h =
      let same : ◌≡◌ {A = Option (Run W S × Exit)} (some (r', y)) (some (q, x)) =
        ground (arith, e, h) in
      let same_run : r' ≡ q = cc same in
      let same_exit : y ≡ x = cc same in
      subst (λ (u : Run W S). WhenDone p u x) same_run (subst (λ z. WhenDone p r' z) same_exit d)

  -- Where the loop says that it was stopped, the context has an error in the world that it leaves, and
  -- the loop gives that one.
  pub publish_collection-WhenDone :
      (fuel : ℕ) (r q : Run W S) (x : Exit)
      → publish_collection p fuel r ≡ some (q, x)
      → WhenDone p q x
  unfolding publish_collection
  publish_collection-WhenDone zero r q x h = cc h
  publish_collection-WhenDone (suc fuel) r q x h =
      by_step fuel r q x (publish_step p r) refl (step_done r)
        (λ r' k. publish_collection-WhenDone fuel r' q x k) h
