-- ===== src/Scheduler/TimeWindow/Window.antt =====
-- scheduler/time_windowed_cycle.go: the window of each iteration, and the wait after it.
use publish_carousel.Prelude.{
  ℕ, zero, suc, String, ◌≡◌, refl, subst, ◌∙◌, ◌⊎◌, inl, inr, true, false, List, Option, none, some,
  Result, ok, err, panic, ◌==◌, inc, Bool-cases,
}
use publish_carousel.Prelude.Int.{sub_ℤ}
use publish_carousel.Scheduler.Duration.{DurationText}
use publish_carousel.Scheduler.Metadata.{Time, CycleMetadata, update_state}
use publish_carousel.Scheduler.Publish.{Run, Exit, exit, crashed, publish_collection}
use publish_carousel.Scheduler.Publish.Frame.{publish_collection-SameIteration}
use publish_carousel.Scheduler.Throttle.{
  DefaultThrottle, stop_throttle, new_capped_dynamic_throttle,
}
use publish_carousel.Scheduler.TimeWindow.{
  Surroundings, WindowCycle, Flow, go_on, halt, crash, Iterated, new_window, after_publish,
  map_publish, with_throttle, perform_cooldown, publisher, by_flow, next_round, publish_built,
  publish_collection_cycle, new_collection_for_time_window, start_rounds, start,
}

update_state-start_time :
    (l : List String) (m : CycleMetadata) → (update_state l m).start_time ≡ m.start_time
unfolding update_state
update_state-start_time l m = refl

module _ {W S : Type 0} (d : DurationText) (env : Surroundings W S) (c : WindowCycle) where
  after_publish-start_time :
      (t : DefaultThrottle) (e : Time) (r : Run W S) (x : Exit)
      → (after_publish d env c t e (r, x)).metadata.start_time ≡ r.metadata.start_time
  unfolding after_publish
  after_publish-start_time t e r (exit true y) = update_state-start_time _ r.metadata
  after_publish-start_time t e r (exit false none) = refl
  after_publish-start_time t e r (exit false (some y)) = update_state-start_time _ r.metadata
  after_publish-start_time t e r crashed = refl

  abbrev StartsAt : Option Time → Option (Iterated W) → Type 0
  StartsAt s none = Unit {0}
  StartsAt s (some r) = r.metadata.start_time ≡ s

  map_publish-StartsAt :
      (t : DefaultThrottle) (e : Time) (fuel : ℕ) (r : Run W S) (o : Option (Run W S × Exit))
      → publish_collection (publisher d env c t) fuel r ≡ o
      → StartsAt r.metadata.start_time (map_publish d env c t e o)
  map_publish-StartsAt t e fuel r none h = tt
  map_publish-StartsAt t e fuel r (some (r', x)) h =
      after_publish-start_time t e r' x
      ∙ (publish_collection-SameIteration (publisher d env c t) fuel r r' x h).start_time

  with_throttle-StartsAt :
      (fuel : ℕ) (e : Time) (r : Run W S) (t : Result DefaultThrottle)
      → StartsAt r.metadata.start_time (with_throttle d env c fuel e r t)
  with_throttle-StartsAt fuel e r (ok t) = map_publish-StartsAt t e fuel r _ refl
  with_throttle-StartsAt fuel e r (err x) = refl
  with_throttle-StartsAt fuel e r panic = refl

  -- The window that is shown after a call: the call's own start, or what was shown before.
  abbrev Shows : Time → CycleMetadata → Option (Iterated W) → Type 0
  Shows s m none = Unit {0}
  Shows s m (some r) = (r.metadata.start_time ≡ some s) ⊎ (r.metadata.start_time ≡ m.start_time)

  StartsAt-Shows :
      (s : Time) (m : CycleMetadata) (o : Option (Iterated W)) → StartsAt (some s) o → Shows s m o
  StartsAt-Shows s m none h = tt
  StartsAt-Shows s m (some r) h = inl h

  publish_built-Shows :
      (fuel : ℕ) (s e : Time) (m : CycleMetadata) (a : W × Result S)
      → Shows s m (publish_built d env c fuel s e m a)
  unfolding publish_built perform_cooldown new_window
  publish_built-Shows fuel s e m (w, err x) = inr (update_state-start_time _ m)
  publish_built-Shows fuel s e m (w, panic) = inr refl
  publish_built-Shows fuel s e m (w, ok x) = elim (Bool-cases (env.source.length x == 0)) [
    | inl z ↦ rw z (inl (update_state-start_time _ (new_window s e (env.source.length x) m)))
    | inr nz ↦ rw nz (
        StartsAt-Shows s m _ (
          with_throttle-StartsAt fuel e
            (record { world = w; rest = x; metadata = new_window s e (env.source.length x) m })
            (new_capped_dynamic_throttle c.time_window c.minimum_throttle c.maximum_throttle
              (inc (env.source.length x)) 1)))
  ]

  Shows-trans :
      (s : Time) (m n : CycleMetadata) (o : Option (Iterated W))
      → (n.start_time ≡ some s) ⊎ (n.start_time ≡ m.start_time)
      → Shows s n o
      → Shows s m o
  Shows-trans s m n none k h = tt
  Shows-trans s m n (some r) k (inl h) = inl h
  Shows-trans s m n (some r) (inl k) (inr h) = inl (h ∙ k)
  Shows-trans s m n (some r) (inr k) (inr h) = inr (h ∙ k)

  by_flow-Shows :
      (s : Time) (m : CycleMetadata) (rest : Time → CycleMetadata → W → Option (Iterated W))
      (r : Iterated W) (f : Flow)
      → ((e : Time) (n : CycleMetadata) (w : W) → Shows s n (rest e n w))
      → Shows s m (some r)
      → Shows s m (by_flow d env c rest r f)
  by_flow-Shows s m rest r (go_on e) ih h =
      Shows-trans s m r.metadata (rest e r.metadata r.world) h (ih e r.metadata r.world)
  by_flow-Shows s m rest r (halt e) ih h = h
  by_flow-Shows s m rest r crash ih h = h

  next_round-Shows :
      (s : Time) (m : CycleMetadata) (rest : Time → CycleMetadata → W → Option (Iterated W))
      (o : Option (Iterated W))
      → ((e : Time) (n : CycleMetadata) (w : W) → Shows s n (rest e n w))
      → Shows s m o
      → Shows s m (next_round d env c rest o)
  next_round-Shows s m rest none ih h = tt
  next_round-Shows s m rest (some r) ih h = by_flow-Shows s m rest r r.flow ih h

  start_rounds-Shows :
      (fuel rounds : ℕ) (s e : Time) (m : CycleMetadata) (w : W)
      → Shows s m (start_rounds d env c fuel rounds s e m w)
  unfolding start_rounds publish_collection_cycle
  start_rounds-Shows fuel zero s e m w = inr refl
  start_rounds-Shows fuel (suc rounds) s e m w =
      next_round-Shows s m (start_rounds d env c fuel rounds s) _
        (λ e' n w'. start_rounds-Shows fuel rounds s e' n w')
        (publish_built-Shows fuel s e m (new_collection_for_time_window d env c s e w))

  -- However many iterations a scaling-window cycle has made, the window it shows starts where that
  -- of the first iteration did, one time window before the cycle was started; or it shows what it
  -- did before, where no iteration could query the database.
  start-start_time :
      (fuel rounds : ℕ) (m : CycleMetadata) (w : W) {r : Iterated W}
      → start d env c fuel rounds m w ≡ some r
      → (r.metadata.start_time ≡ some (sub_ℤ (env.now w) c.time_window))
        ⊎ (r.metadata.start_time ≡ m.start_time)
  unfolding start
  start-start_time fuel rounds m w h =
      subst (Shows (sub_ℤ (env.now w) c.time_window) m) h
        (start_rounds-Shows fuel rounds (sub_ℤ (env.now w) c.time_window) (env.now w) m w)

  -- An iteration that published its whole window goes on at once, where waiting on a throttle that
  -- was stopped returns at once: the end of the next window is the time at which the last document
  -- was done, and the world has not moved on.
  publish_built-no_wait :
      (fuel : ℕ) (s e : Time) (m : CycleMetadata) (w : W) (x : S) (t : DefaultThrottle)
      (r : Run W S)
      → ((u : DefaultThrottle) (v : W) → u.cancelled ≡ true → env.queue u v ≡ v)
      → (env.source.length x == 0) ≡ false
      → new_capped_dynamic_throttle c.time_window c.minimum_throttle c.maximum_throttle
          (inc (env.source.length x))
          1
        ≡ ok t
      → publish_collection
          (publisher d env c t)
          fuel
          (record { world = w; rest = x; metadata = new_window s e (env.source.length x) m })
        ≡ some (r, exit false none)
      → publish_built d env c fuel s e m (w, ok x)
        ≡ some (record { world = r.world; metadata = r.metadata; flow = go_on (env.now r.world) })
  unfolding publish_built after_publish stop_throttle
  publish_built-no_wait fuel s e m w x t r law nz throttle run =
      rw (nz, throttle, run, law (stop_throttle t) r.world refl) refl
