-- ===== src/Scheduler/Publish/Frame.antt =====
-- scheduler/cycle.go: what `publishCollection` leaves alone in the metadata.
use publish_carousel.Prelude.{
  ℕ, zero, suc, String, ◌≡◌, refl, subst, ◌∙◌, Option, none, some, Result, ok, err, panic,
  Bool-cases, Option-cases, inl, inr, is_blank,
}
use publish_carousel.Native.Collection.{Next}
use publish_carousel.Native.Content.{Content}
use publish_carousel.Scheduler.Metadata.{CycleMetadata, update_progress}
use publish_carousel.Scheduler.Publish.{
  Publisher, Run, Exit, Step, again, leave, after_execute, after_prepare, publish_uuid, after_next,
  after_ctx, publish_step, publish_collection,
}

-- The fields that belong to the iteration, not to its progress.
pub record SameIteration (m n : CycleMetadata) : Type 0 where
  pub state : n.state ≡ m.state
  pub total : n.total ≡ m.total
  pub iteration : n.iteration ≡ m.iteration
  pub attempts : n.attempts ≡ m.attempts
  pub start_time : n.start_time ≡ m.start_time
  pub end_time : n.end_time ≡ m.end_time

SameIteration-refl : (m : CycleMetadata) → SameIteration m m
SameIteration-refl m = record {
  state = refl;
  total = refl;
  iteration = refl;
  attempts = refl;
  start_time = refl;
  end_time = refl;
}

SameIteration-trans :
    {m n o : CycleMetadata} → SameIteration m n → SameIteration n o → SameIteration m o
SameIteration-trans a b = record {
  state = b.state ∙ a.state;
  total = b.total ∙ a.total;
  iteration = b.iteration ∙ a.iteration;
  attempts = b.attempts ∙ a.attempts;
  start_time = b.start_time ∙ a.start_time;
  end_time = b.end_time ∙ a.end_time;
}

pub update_progress-SameIteration :
    (u t : String) (e : Option String) (m : CycleMetadata)
    → SameIteration m (update_progress u t e m)
unfolding update_progress
update_progress-SameIteration u t none m = record {
  state = refl;
  total = refl;
  iteration = refl;
  attempts = refl;
  start_time = refl;
  end_time = refl;
}
update_progress-SameIteration u t (some e) m = record {
  state = refl;
  total = refl;
  iteration = refl;
  attempts = refl;
  start_time = refl;
  end_time = refl;
}

abbrev Keeps : {W S : Type 0} → CycleMetadata → Step W S → Type 0
Keeps m (again r) = SameIteration m r.metadata
Keeps m (leave r x) = SameIteration m r.metadata

module _ {W S : Type 0} (p : Publisher W S) where
  after_execute-Keeps :
      (uuid tx : String) (s : S) (m : CycleMetadata) (a : W × Result (Unit {0}))
      → Keeps m (after_execute p uuid tx s m a)
  after_execute-Keeps uuid tx s m (w, ok _) = update_progress-SameIteration uuid tx none m
  after_execute-Keeps uuid tx s m (w, err e) = update_progress-SameIteration uuid tx (some e) m
  after_execute-Keeps uuid tx s m (w, panic) = SameIteration-refl m

  after_prepare-Keeps :
      (uuid : String) (s : S) (m : CycleMetadata) (a : W × Result (Content × String))
      → Keeps m (after_prepare p uuid s m a)
  after_prepare-Keeps uuid s m (w, ok (content, tx)) =
      after_execute-Keeps uuid tx s m (p.task.execute uuid content p.origin tx w)
  after_prepare-Keeps uuid s m (w, err e) = update_progress-SameIteration uuid "" (some e) m
  after_prepare-Keeps uuid s m (w, panic) = SameIteration-refl m

  publish_uuid-Keeps :
      (uuid : String) (s : S) (m : CycleMetadata) (w : W) → Keeps m (publish_uuid p uuid s m w)
  unfolding publish_uuid
  publish_uuid-Keeps uuid s m w = elim (Bool-cases (is_blank uuid)) [
    | inl blank ↦ rw blank (update_progress-SameIteration uuid "" (some "Empty uuid") m)
    | inr full ↦ rw full (after_prepare-Keeps uuid s m (p.task.prepare p.collection uuid w))
  ]

  after_next-Keeps :
      (m : CycleMetadata) (w : W) (a : S × Option Next) → Keeps m (after_next p m w a)
  unfolding after_next
  after_next-Keeps m w (s, none) = SameIteration-refl m
  after_next-Keeps m w (s, some n) = elim (Bool-cases n.finished) [
    | inl last ↦ rw last (update_progress-SameIteration "" "" n.error m)
    | inr more ↦ rw more (publish_uuid-Keeps n.uuid s m w)
  ]

  publish_step-Keeps : (r : Run W S) → Keeps r.metadata (publish_step p r)
  unfolding publish_step
  publish_step-Keeps r = elim (Option-cases (p.ctx_err (p.queue r.world))) [
    | inl live ↦ rw (live, after_ctx) (after_next-Keeps r.metadata _ (p.source.next r.rest))
    | inr (x, dead) ↦ rw (dead, after_ctx) (SameIteration-refl r.metadata)
  ]

  -- One round that ends the loop, or one round and the loop after it.
  Keeps-SameIteration :
      (fuel : ℕ) (r r' : Run W S) (x : Exit) (s : Step W S)
      → publish_step p r ≡ s
      → Keeps r.metadata s
      → ((r'' : Run W S)
          → publish_collection p fuel r'' ≡ some (r', x)
          → SameIteration r''.metadata r'.metadata)
      → publish_collection p (suc fuel) r ≡ some (r', x)
      → SameIteration r.metadata r'.metadata
  unfolding publish_collection
  Keeps-SameIteration fuel r r' x (again r'') h k rec e =
      SameIteration-trans k (rec r'' (rw (h, publish_collection) at e))
  Keeps-SameIteration fuel r r' x (leave r'' y) h k rec e =
      let same : r'' ≡ r' = cc (rw (h, publish_collection) at e) in
      subst (λ (q : Run W S). SameIteration r.metadata q.metadata) same k

  -- Over any collection, and however it ends, the loop leaves alone the states, the total, the
  -- iteration, the attempts and the window of the metadata.
  pub publish_collection-SameIteration :
      (fuel : ℕ) (r r' : Run W S) (x : Exit)
      → publish_collection p fuel r ≡ some (r', x)
      → SameIteration r.metadata r'.metadata
  publish_collection-SameIteration zero r r' x h = absurd (stuck h)
    where
      stuck : publish_collection p zero r ≡ some (r', x) → ⊥
      stuck e = unfold publish_collection in cc e
  publish_collection-SameIteration (suc fuel) r r' x h =
      Keeps-SameIteration fuel r r' x (publish_step p r) refl (publish_step-Keeps r)
        (λ r'' e. publish_collection-SameIteration fuel r'' r' x e) h
