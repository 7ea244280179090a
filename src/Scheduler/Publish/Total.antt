-- ===== src/Scheduler/Publish/Total.antt =====
-- scheduler/cycle.go: `publishCollection` over a collection in memory ends, and accounts for each
-- UUID it took.
use publish_carousel.Prelude.{
  ℕ, zero, suc, ◌+◌, ◌%◌, ◌≤◌, ◌<◌, String, ◌≡◌, refl, sym, ap, subst, ◌∙◌, true, false, List, [],
  ◌∷◌, Option, none, some, Error, Result, ok, err, panic, arith, length, drop, inc, word_mod,
  Bool-cases, Option-cases, inl, inr, is_blank,
}
use publish_carousel.Native.Content.{Content}
use publish_carousel.Native.InMemory.{
  InMemory, in_memory, next_in_memory, next_in_memory-nil, next_in_memory-cons,
}
use publish_carousel.Scheduler.Metadata.{CycleMetadata, update_progress}
use publish_carousel.Scheduler.Publish.{
  Publisher, Run, Exit, exit, crashed, Step, again, leave, after_execute, after_prepare,
  publish_uuid, after_next, after_ctx, publish_step, publish_collection,
}

pub update_progress-completed :
    (u t : String) (e : Option Error) (m : CycleMetadata)
    → (update_progress u t e m).completed ≡ inc m.completed
unfolding update_progress
update_progress-completed u t none m = refl
update_progress-completed u t (some e) m = refl

-- What a round that takes the UUID before `xs` may do to the collection and to `completed`.
abbrev pub Took : {W : Type 0} → List String → CycleMetadata → Step W InMemory → Type 0
Took xs m (again r) = (r.rest.uuids ≡ xs) × (r.metadata.completed ≡ inc m.completed)
Took xs m (leave r (exit stopped e)) = ⊥
Took xs m (leave r crashed) = (r.rest.uuids ≡ xs) × (r.metadata ≡ m)

module _ {W : Type 0} (p : Publisher W InMemory) where
  after_execute-Took :
      (uuid tx : String) (s : InMemory) (m : CycleMetadata) (a : W × Result (Unit {0}))
      → Took s.uuids m (after_execute p uuid tx s m a)
  after_execute-Took uuid tx s m (w, ok _) = (refl, update_progress-completed uuid tx none m)
  after_execute-Took uuid tx s m (w, err e) = (refl, update_progress-completed uuid tx (some e) m)
  after_execute-Took uuid tx s m (w, panic) = (refl, refl)

  after_prepare-Took :
      (uuid : String) (s : InMemory) (m : CycleMetadata) (a : W × Result (Content × String))
      → Took s.uuids m (after_prepare p uuid s m a)
  after_prepare-Took uuid s m (w, ok (content, tx)) =
      after_execute-Took uuid tx s m (p.task.execute uuid content p.origin tx w)
  after_prepare-Took uuid s m (w, err e) = (refl, update_progress-completed uuid "" (some e) m)
  after_prepare-Took uuid s m (w, panic) = (refl, refl)

  publish_uuid-Took :
      (uuid : String) (s : InMemory) (m : CycleMetadata) (w : W)
      → Took s.uuids m (publish_uuid p uuid s m w)
  unfolding publish_uuid
  publish_uuid-Took uuid s m w = elim (Bool-cases (is_blank uuid)) [
    | inl blank ↦ rw blank (refl, update_progress-completed uuid "" (some "Empty uuid") m)
    | inr full ↦ rw full (after_prepare-Took uuid s m (p.task.prepare p.collection uuid w))
  ]

-- How the loop over `xs` may end, from the metadata `m`.
abbrev pub Ends : {W : Type 0} → List String → CycleMetadata → Run W InMemory → Exit → Type 0
Ends xs m r (exit true e) =
    (k : ℕ) × (k ≤ length xs)
    × (r.rest.uuids ≡ drop k xs)
    × (r.metadata.completed ≡ (m.completed + k) % word_mod)
Ends xs m r (exit false e) =
    (e ≡ none)
    × (r.rest.uuids ≡ [])
    × (r.metadata.completed ≡ (m.completed + length xs + 1) % word_mod)
Ends xs m r crashed =
    (k : ℕ) × (k < length xs)
    × (r.rest.uuids ≡ drop (suc k) xs)
    × (r.metadata.completed ≡ (m.completed + k) % word_mod)

abbrev Round : {W : Type 0} → List String → CycleMetadata → Step W InMemory → Type 0
Round xs m (again r) =
    (y : String) × (xs ≡ y ∷ r.rest.uuids) × (r.metadata.completed ≡ inc m.completed)
Round xs m (leave r x) = Ends xs m r x

Took-Round :
    {W : Type 0} (y : String) (xs : List String) (m : CycleMetadata) (s : Step W InMemory)
    → m.completed < word_mod
    → Took xs m s
    → Round (y ∷ xs) m s
Took-Round y xs m (again r) b t = (y, ap (◌∷◌ y) (sym t.0), t.1)
Took-Round y xs m (leave r (exit stopped e)) b t = absurd t
Took-Round y xs m (leave r crashed) b t =
    (0, omega arith, t.0, ap (λ (n : CycleMetadata). n.completed) t.1 ∙ omega arith)

module _ {W : Type 0} (p : Publisher W InMemory) where
  after_next-Round :
      (s : InMemory) (xs : List String) (m : CycleMetadata) (w : W)
      → m.completed < word_mod
      → s.uuids ≡ xs
      → Round xs m (after_next p m w (next_in_memory s))
  unfolding after_next
  after_next-Round s [] m w b e =
      rw (next_in_memory-nil s e) (refl, e, update_progress-completed "" "" none m ∙ omega arith)
  after_next-Round s (x ∷ xs) m w b e =
      rw (next_in_memory-cons s x xs e)
        (Took-Round x xs m _ b (publish_uuid-Took p x (record s { uuids = xs }) m w))

  publish_step-Round :
      (r : Run W InMemory)
      → p.source ≡ in_memory
      → r.metadata.completed < word_mod
      → Round r.rest.uuids r.metadata (publish_step p r)
  unfolding publish_step
  publish_step-Round r e b = elim (Option-cases (p.ctx_err (p.queue r.world))) [
    | inl live ↦
        rw (live, after_ctx) (rw e (after_next-Round r.rest r.rest.uuids r.metadata _ b refl))
    | inr (x, dead) ↦ rw (dead, after_ctx) (0, omega arith, refl, omega arith)
  ]

  Ends-step :
      (y : String) (xs : List String) (m n : CycleMetadata) (r : Run W InMemory) (x : Exit)
      → n.completed ≡ inc m.completed
      → Ends xs n r x
      → Ends (y ∷ xs) m r x
  Ends-step y xs m n r (exit true e) c (k, le, d, q) = (suc k, omega arith, d, omega arith)
  Ends-step y xs m n r (exit false e) c (z, d, q) = (z, d, omega arith)
  Ends-step y xs m n r crashed c (k, le, d, q) = (suc k, omega arith, d, omega arith)

  abbrev Outcome : ℕ → List String → Run W InMemory → Type 0
  Outcome fuel xs r =
      (r' : Run W InMemory) × (x : Exit) × (publish_collection p fuel r ≡ some (r', x))
      × Ends xs r.metadata r' x

  -- One round, and then the loop with less fuel.
  Round-Outcome :
      (fuel : ℕ) (r : Run W InMemory) (xs : List String) (s : Step W InMemory)
      → publish_step p r ≡ s
      → Round xs r.metadata s
      → ((r' : Run W InMemory)
          → r'.metadata.completed < word_mod
          → length r'.rest.uuids < length xs
          → Outcome fuel r'.rest.uuids r')
      → Outcome (suc fuel) xs r
  unfolding publish_collection
  Round-Outcome fuel r xs (leave r' x) h ends rec = (r', x, rw (h, publish_collection) refl, ends)
  Round-Outcome fuel r xs (again r') h (y, d, c) rec =
      let (r'', x, done, ends) = rec r' (omega arith) (omega (arith, ap length d)) in
      (
        r'',
        x,
        rw (h, publish_collection) done,
        subst (λ l. Ends l r.metadata r'' x) (sym d)
            (Ends-step y r'.rest.uuids r.metadata r'.metadata r'' x c ends),
      )

  -- With more fuel than there are UUIDs the loop over a collection in memory returns. Stopped, it
  -- has taken the first k UUIDs and leaves the others, and `completed` has grown by k; finished, it
  -- has taken all n of them with no error, and `completed` has grown by n + 1; and where the task
  -- panics on a UUID the k before it are counted. The count wraps at 2 ^ 64.
  pub publish_collection-Ends :
      (fuel : ℕ) (r : Run W InMemory) (xs : List String)
      → p.source ≡ in_memory
      → r.rest.uuids ≡ xs
      → r.metadata.completed < word_mod
      → length xs < fuel
      → (r' : Run W InMemory) × (x : Exit) × (publish_collection p fuel r ≡ some (r', x))
        × Ends xs r.metadata r' x
  publish_collection-Ends zero r xs e u b f = elim f [ ]
  publish_collection-Ends (suc fuel) r xs e u b f =
      Round-Outcome fuel r xs (publish_step p r) refl
        (subst (λ l. Round l r.metadata (publish_step p r)) u (publish_step-Round r e b))
        λ r' c l. publish_collection-Ends fuel r' r'.rest.uuids e refl c (omega arith)
