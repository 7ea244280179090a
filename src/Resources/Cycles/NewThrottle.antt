-- ===== src/Resources/Cycles/NewThrottle.antt =====
-- resources/cycles.go: `SetCycleThrottle`, which replaces a cycle.
use publish_carousel.Prelude.{
  ℕ, List, String, ◌≡◌, refl, ◌∙◌, ap, Bool, true, false, ◌&&◌, [], ◌∷◌, Error, ◌⊎◌, Option, none,
  some, ok, if◌then◌else◌, text_eq, eq_iff, arith, is_blank,
}
use publish_carousel.Prelude.Int.{ℤ}
use publish_carousel.Scheduler.Duration.{DurationText}
use publish_carousel.Scheduler.Metadata.{CycleMetadata}
use publish_carousel.Scheduler.Mode.{is_enabled, is_running}
use publish_carousel.Scheduler.Throttle.{
  DefaultThrottle, TextMap, unmarshal_throttle, marshal_throttle, new_throttle,
}
use publish_carousel.Scheduler.Cycle.{
  Cycle, new_throttled_whole_collection_cycle, new_abstract_cycle, set_metadata, stop, start,
}
use publish_carousel.Scheduler.Config.{transform_to_config}
use publish_carousel.Scheduler.Config.RoundTrip.{new_cycle-transform_to_config}
use publish_carousel.Scheduler.Control.{Scheduler, lookup_cycle, insert_new, delete_cycle}
use publish_carousel.Scheduler.Control.Keys.{launched, delete_cycle-lookup}
use publish_carousel.Scheduler.Control.Life.{delete_cycle-state}
use publish_carousel.Resources.Cycles.Changes.{create_cycle-fresh}
use publish_carousel.Resources.Cycles.Readers.{marshalled, shown_throttle, get_cycle_throttle}
use publish_carousel.Resources.Cycles.{
  cycle_url, zero_throttle, replace_throttle, set_found, set_cycle_throttle,
}

-- A whole-collection cycle with this metadata and these goroutines.
abbrev pub started_cycle :
    DurationText
    → (String → String)
    → String
    → String
    → String
    → ℤ
    → ℤ
    → CycleMetadata
    → ℕ
    → Option ℕ
    → List ℕ
    → Cycle
started_cycle d digest name collection origin cool_down throttle m contexts cancel runs =
    record (new_throttled_whole_collection_cycle digest d name collection origin cool_down
      throttle) { metadata = m; contexts = contexts; cancel = cancel; runs = runs }

missing_self : (id : String) (o : Option Cycle) → (if text_eq id id then none else o) ≡ none
missing_self id o = ground (arith, eq_iff id id)

-- Putting `x` in where its ID was taken out.
lookup-insert_new :
    (x : Cycle) (s s' : Scheduler) (j : String)
    → s'.state ≡ s.state
    → lookup_cycle j s'.cycles ≡ (if text_eq x.cycle_id j then none else lookup_cycle j s.cycles)
    → lookup_cycle j (insert_new x s').cycles
      ≡ (if text_eq x.cycle_id j then some (launched s x) else lookup_cycle j s.cycles)
unfolding lookup_cycle
lookup-insert_new x s s' j e h = rw e (ground (arith, h))

-- Whether or not it was started, the cycle shows its own throttle.
shown_throttle-launched :
    {B : Type 0} (d : DurationText) (digest : String → String) (marshal : TextMap → Error ⊎ B)
    (id name collection origin : String) (cool_down interval : ℤ) (m : CycleMetadata) (b : Bool)
    → let x =
        set_metadata m (
          new_throttled_whole_collection_cycle digest d name collection origin cool_down
            interval) in
      shown_throttle d marshal id (some (if b then start x else x))
      ≡ ok (marshalled (marshal (("interval", d.duration_string interval) ∷ [])))
unfolding set_metadata start new_throttled_whole_collection_cycle new_abstract_cycle
    marshal_throttle new_throttle
shown_throttle-launched d digest marshal id name collection origin cool_down interval m true = refl
shown_throttle-launched d digest marshal id name collection origin cool_down interval m false = refl

found_self :
    (id : String) (c : Cycle) (o : Option Cycle) → (if text_eq id id then some c else o) ≡ some c
found_self id c o = ground (arith, eq_iff id id)

module _ (d : DurationText) (digest : String → String) where
  -- A whole-collection cycle that has the metadata `m` and the throttle `old`, and was started and
  -- stopped in any way, is replaced by a new cycle with the same ID, name, collection, origin and
  -- metadata, with the throttle in the request, and with no goroutine but the one that the scheduler
  -- starts if it runs. Every other ID finds what it found before, and the answer is 303, to the
  -- cycle; GetCycleThrottle answers then with the new interval, as JSON. This holds where the body can be read, the cycle's durations are read back from their
  -- texts, the text of the new throttle is not empty, and the cycle's name, collection and origin
  -- are not blank.
  pub set_cycle_throttle-lookup :
      {B : Type 0} (marshal : TextMap → Error ⊎ B) (url name collection origin : String)
      (cool_down old : ℤ) (m : CycleMetadata) (contexts : ℕ) (cancel : Option ℕ) (runs : List ℕ)
      (body : TextMap) (t : DefaultThrottle) (s : Scheduler)
      → let c =
          started_cycle d digest name collection origin cool_down old m contexts cancel runs in
        let new =
          new_throttled_whole_collection_cycle digest d name collection origin cool_down
            t.interval in
        let after = set_cycle_throttle d digest url c.cycle_id (ok body) s in
        lookup_cycle c.cycle_id s.cycles ≡ some c
        → unmarshal_throttle d zero_throttle (ok body) ≡ ok t
        → d.parse_duration (d.duration_string cool_down) ≡ ok cool_down
        → d.parse_duration (d.duration_string t.interval) ≡ ok t.interval
        → is_blank name ≡ false
        → is_blank collection ≡ false
        → is_blank origin ≡ false
        → text_eq (d.duration_string t.interval) "" ≡ false
        → (after.1 ≡ ok (record { status = 303; location = some (cycle_url url c.cycle_id) }))
          × ((j : String)
              → lookup_cycle j after.0.cycles ≡ (
                  if text_eq c.cycle_id j
                  then some (launched s (set_metadata m new))
                  else lookup_cycle j s.cycles))
          × (get_cycle_throttle d marshal c.cycle_id after.0
              ≡ ok (marshalled (marshal (("interval", d.duration_string t.interval) ∷ []))))
  unfolding get_cycle_throttle set_cycle_throttle replace_throttle
      new_throttled_whole_collection_cycle transform_to_config stop set_metadata
  set_cycle_throttle-lookup marshal url name collection origin cool_down old m contexts cancel runs
        body t s found read lc lt n k o e =
      let c = started_cycle d digest name collection origin cool_down old m contexts cancel runs in
      let new =
        new_throttled_whole_collection_cycle digest d name collection origin cool_down t.interval in
      let s' = (delete_cycle c.cycle_id s).0 in
      let rest = (delete_cycle-lookup c.cycle_id c s found).2 in
      let made =
        new_cycle-transform_to_config d digest s'.default_throttle name collection origin cool_down
          t.interval lc lt n k o e in
      let gone : lookup_cycle c.cycle_id s'.cycles ≡ none =
        rest c.cycle_id ∙ missing_self c.cycle_id _ in
      let x = set_metadata m new in
      let others : (j : String)
          → lookup_cycle j (insert_new x s').cycles
            ≡ (if text_eq x.cycle_id j then some (launched s x) else lookup_cycle j s.cycles) =
        λ j. lookup-insert_new x s s' j (delete_cycle-state c.cycle_id s).0 (rest j) in
      rw (found, set_found, read, create_cycle-fresh d digest _ (some m) s' new made gone)
        (
          refl,
          others,
          ap (λ o. shown_throttle d marshal c.cycle_id o)
                (others c.cycle_id ∙ found_self c.cycle_id (launched s x) _)
              ∙ shown_throttle-launched d digest marshal c.cycle_id name collection origin cool_down
                  t.interval m (is_enabled s.state && is_running s.state),
        )
