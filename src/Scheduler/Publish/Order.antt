-- ===== src/Scheduler/Publish/Order.antt =====
-- scheduler/cycle.go: the order in which `publishCollection` hands UUIDs to the task.
use publish_carousel.Prelude.{
  ℕ, zero, suc, String, ◌≡◌, refl, ap, subst, ◌∙◌, not, List, [], ◌∷◌, ◌++◌, some, Result, ok, err,
  panic, Bool-cases, Option-cases, inl, inr, is_blank, keep,
}
use mathlib.Core.List.{append_assoc}
use publish_carousel.Native.Content.{Content}
use publish_carousel.Native.InMemory.{
  InMemory, in_memory, next_in_memory, next_in_memory-nil, next_in_memory-cons,
}
use publish_carousel.Scheduler.Metadata.{CycleMetadata}
use publish_carousel.Scheduler.Publish.{
  Publisher, Run, Exit, Step, again, leave, after_execute, after_prepare, publish_uuid, after_next,
  after_ctx, publish_step, publish_collection,
}

-- A world that remembers the UUIDs that `Prepare` was called with, and nothing else adds to them.
pub record Logs {W : Type 0} (p : Publisher W InMemory) (log : W → List String) : Type 0 where
  pub queue_keeps : (w : W) → log (p.queue w) ≡ log w
  pub prepare_logs :
      (c uuid : String) (w : W) → log (p.task.prepare c uuid w).0 ≡ log w ++ uuid ∷ []
  pub execute_keeps :
      (uuid : String) (c : Content) (o tx : String) (w : W)
      → log (p.task.execute uuid c o tx w).0 ≡ log w

-- The UUIDs of a collection that are not blank.
abbrev pub to_publish : List String → List String
to_publish = keep (λ uuid. not (is_blank uuid))

module _ {W : Type 0} (p : Publisher W InMemory) (log : W → List String) (g : Logs p log) where
  -- What was handed over and what is left make up `all`.
  abbrev Whole : List String → Step W InMemory → Type 0
  Whole all (again r) = log r.world ++ to_publish r.rest.uuids ≡ all
  Whole all (leave r x) = log r.world ++ to_publish r.rest.uuids ≡ all

  after_execute-Whole :
      (uuid tx : String) (s : InMemory) (m : CycleMetadata) (a : W × Result (Unit {0}))
      → Whole (log a.0 ++ to_publish s.uuids) (after_execute p uuid tx s m a)
  after_execute-Whole uuid tx s m (w, ok _) = refl
  after_execute-Whole uuid tx s m (w, err e) = refl
  after_execute-Whole uuid tx s m (w, panic) = refl

  after_prepare-Whole :
      (uuid : String) (s : InMemory) (m : CycleMetadata) (a : W × Result (Content × String))
      → Whole (log a.0 ++ to_publish s.uuids) (after_prepare p uuid s m a)
  after_prepare-Whole uuid s m (w, ok (content, tx)) =
      rw (← g.execute_keeps uuid content p.origin tx w)
        (after_execute-Whole uuid tx s m (p.task.execute uuid content p.origin tx w))
  after_prepare-Whole uuid s m (w, err e) = refl
  after_prepare-Whole uuid s m (w, panic) = refl

  publish_uuid-Whole :
      (uuid : String) (s : InMemory) (m : CycleMetadata) (w : W)
      → Whole (log w ++ to_publish (uuid ∷ s.uuids)) (publish_uuid p uuid s m w)
  unfolding publish_uuid
  publish_uuid-Whole uuid s m w = elim (Bool-cases (is_blank uuid)) [
    | inl blank ↦ rw blank refl
    | inr full ↦ rw full (
        subst (λ l. Whole l (after_prepare p uuid s m (p.task.prepare p.collection uuid w)))
          (ap (λ l. l ++ to_publish s.uuids) (g.prepare_logs p.collection uuid w)
            ∙ append_assoc (log w) (uuid ∷ []) (to_publish s.uuids))
          (after_prepare-Whole uuid s m (p.task.prepare p.collection uuid w)))
  ]

  after_next-Whole :
      (s : InMemory) (xs : List String) (m : CycleMetadata) (w : W)
      → s.uuids ≡ xs
      → Whole (log w ++ to_publish xs) (after_next p m w (next_in_memory s))
  unfolding after_next
  after_next-Whole s [] m w e = rw (next_in_memory-nil s e) (ap (λ l. log w ++ to_publish l) e)
  after_next-Whole s (x ∷ xs) m w e =
      rw (next_in_memory-cons s x xs e) (publish_uuid-Whole x (record s { uuids = xs }) m w)

  publish_step-Whole :
      (r : Run W InMemory)
      → p.source ≡ in_memory
      → Whole (log r.world ++ to_publish r.rest.uuids) (publish_step p r)
  unfolding publish_step
  publish_step-Whole r e = elim (Option-cases (p.ctx_err (p.queue r.world))) [
    | inl live ↦
        rw (live, after_ctx, e)
          (subst
            (λ l.
              Whole (l ++ to_publish r.rest.uuids)
                (after_next p r.metadata (p.queue r.world) (next_in_memory r.rest)))
            (g.queue_keeps r.world) (after_next-Whole r.rest r.rest.uuids r.metadata _ refl))
    | inr (x, dead) ↦
        rw (dead, after_ctx) (ap (λ l. l ++ to_publish r.rest.uuids) (g.queue_keeps r.world))
  ]

  Whole-loop :
      (fuel : ℕ) (r r' : Run W InMemory) (x : Exit) (all : List String) (s : Step W InMemory)
      → publish_step p r ≡ s
      → Whole all s
      → ((r'' : Run W InMemory)
          → publish_collection p fuel r'' ≡ some (r', x)
          → log r'.world ++ to_publish r'.rest.uuids ≡ log r''.world ++ to_publish r''.rest.uuids)
      → publish_collection p (suc fuel) r ≡ some (r', x)
      → log r'.world ++ to_publish r'.rest.uuids ≡ all
  unfolding publish_collection
  Whole-loop fuel r r' x all (again r'') h k rec e = rec r'' (rw (h, publish_collection) at e) ∙ k
  Whole-loop fuel r r' x all (leave r'' y) h k rec e =
      let same : r'' ≡ r' = cc (rw (h, publish_collection) at e) in
      subst (λ (q : Run W InMemory). log q.world ++ to_publish q.rest.uuids ≡ all) same k

  -- Where `log` lists the UUIDs handed to `Prepare`, and neither the throttle nor `Execute` adds to
  -- it: however the loop over a collection in memory ends, `Prepare` was called once with each UUID
  -- that is not blank, in the collection's order: the UUIDs handed over by then, followed by those
  -- not blank that are left, are the ones handed over before, followed by all those not blank.
  pub publish_collection-log :
      (fuel : ℕ) (r r' : Run W InMemory) (x : Exit)
      → p.source ≡ in_memory
      → publish_collection p fuel r ≡ some (r', x)
      → log r'.world ++ to_publish r'.rest.uuids ≡ log r.world ++ to_publish r.rest.uuids
  publish_collection-log zero r r' x src h = absurd (stuck h)
    where
      stuck : publish_collection p zero r ≡ some (r', x) → ⊥
      stuck e = unfold publish_collection in cc e
  publish_collection-log (suc fuel) r r' x src h =
      Whole-loop fuel r r' x (log r.world ++ to_publish r.rest.uuids) (publish_step p r) refl
        (publish_step-Whole r src) (λ r'' e. publish_collection-log fuel r'' r' x src e) h
