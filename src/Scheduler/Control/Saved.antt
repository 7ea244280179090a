-- ===== src/Scheduler/Control/Saved.antt =====
-- scheduler/scheduler.go: what `Shutdown` saves, `RestorePreviousState` gives back.
use publish_carousel.Prelude.{
  String, ◌≡◌, refl, sym, ap, ◌∙◌, true, false, [], ◌∷◌, none, some, ok, inl, inr, if◌then◌else◌,
  text_eq, eq_iff, arith, Bool-cases,
}
use publish_carousel.Scheduler.Metadata.{CycleMetadata}
use publish_carousel.Scheduler.Cycle.{Cycle, is_whole_collection, stop}
use publish_carousel.Scheduler.Control.{
  CycleMap, Scheduler, MetadataReadWriter, lookup_cycle, each_cycle, save_cycle_metadata, restored,
  restore_cycles, shutdown,
}
use publish_carousel.Scheduler.Control.Keys.{IsKeyed}

-- A store of metadata: what was written under an ID is loaded again, whatever is written under the
-- others and loaded in between.
pub record IsMemory {W : Type 0} (rw' : MetadataReadWriter W) : Type 0 where
  pub written :
      (id : String) (c : Cycle) (m : CycleMetadata) (w : W)
      → (rw'.load_metadata id (rw'.write_metadata id c m w).0).1 ≡ ok m
  pub apart :
      (id j : String) (c : Cycle) (m : CycleMetadata) (w : W)
      → text_eq id j ≡ false
      → (rw'.load_metadata j (rw'.write_metadata id c m w).0).1 ≡ (rw'.load_metadata j w).1
  pub steady :
      (id j : String) (w : W)
      → (rw'.load_metadata j (rw'.load_metadata id w).0).1 ≡ (rw'.load_metadata j w).1

-- No ID stands twice in the map.
abbrev pub IsDistinct : CycleMap → Type 0
IsDistinct [] = Unit
IsDistinct ((k, c) ∷ m) = (lookup_cycle k m ≡ none) × IsDistinct m

pub each_cycle-missing :
    (f : Cycle → Cycle) (j : String) (m : CycleMap)
    → lookup_cycle j m ≡ none
    → lookup_cycle j (each_cycle f m) ≡ none
unfolding lookup_cycle each_cycle
each_cycle-missing f j [] h = refl
each_cycle-missing f j ((k, c) ∷ m) h = ground (arith, h, each_cycle-missing f j m)

pub each_cycle-IsDistinct :
    (f : Cycle → Cycle) (m : CycleMap) → IsDistinct m → IsDistinct (each_cycle f m)
unfolding each_cycle
each_cycle-IsDistinct f [] d = tt
each_cycle-IsDistinct f ((k, c) ∷ m) (fresh, d) =
    (each_cycle-missing f k m fresh, each_cycle-IsDistinct f m d)

pub stop_whole : (c : Cycle) → is_whole_collection (stop c) ≡ is_whole_collection c
unfolding stop
stop_whole c = refl

pub stop_id : (c : Cycle) → (stop c).cycle_id ≡ c.cycle_id
unfolding stop
stop_id c = refl

-- The world after a shutdown with no error.
pub shutdown-save :
    {W : Type 0} (rw' : MetadataReadWriter W) (s : Scheduler) (w : W)
    → (shutdown rw' s w).2 ≡ ok tt
    → (shutdown rw' s w).1 ≡ save_cycle_metadata rw' (each_cycle stop s.cycles) w
unfolding shutdown
shutdown-save rw' s w done = ground (arith, done)

module _ {W : Type 0} (rw' : MetadataReadWriter W) (law : IsMemory rw') where
  -- What is saved of one cycle, and what is loaded for it.
  abbrev save_one : Cycle → W → W
  save_one c w =
      if is_whole_collection c then (rw'.write_metadata c.cycle_id c c.metadata w).0 else w

  abbrev restore_one : String → Cycle → W → Cycle
  restore_one id c w =
      if is_whole_collection c then restored rw' c (rw'.load_metadata id w).1 else c

  abbrev after_one : String → Cycle → W → W
  after_one id c w = if is_whole_collection c then (rw'.load_metadata id w).0 else w

  pub save_one-apart :
      (k j : String) (c : Cycle) (w : W)
      → k ≡ c.cycle_id
      → text_eq k j ≡ false
      → (rw'.load_metadata j (save_one c w)).1 ≡ (rw'.load_metadata j w).1
  save_one-apart k j c w e h = elim (Bool-cases (is_whole_collection c)) [
    | inl whole ↦
        rw whole (law.apart c.cycle_id j c c.metadata w (ap (λ i. text_eq i j) (sym e) ∙ h))
    | inr window ↦ rw window refl
  ]

  save_one-load :
      (c : Cycle) (w : W)
      → is_whole_collection c ≡ true
      → (rw'.load_metadata c.cycle_id (save_one c w)).1 ≡ ok c.metadata
  save_one-load c w whole = rw whole (law.written c.cycle_id c c.metadata w)

  pub after_one-steady :
      (k j : String) (c : Cycle) (w : W)
      → (rw'.load_metadata j (after_one k c w)).1 ≡ (rw'.load_metadata j w).1
  after_one-steady k j c w = elim (Bool-cases (is_whole_collection c)) [
    | inl whole ↦ rw whole (law.steady k j w)
    | inr window ↦ rw window refl
  ]

  pub save-apart :
      (j : String) (m : CycleMap) (w : W)
      → IsKeyed m
      → lookup_cycle j m ≡ none
      → (rw'.load_metadata j (save_cycle_metadata rw' m w)).1 ≡ (rw'.load_metadata j w).1
  unfolding save_cycle_metadata lookup_cycle
  save-apart j [] w keyed h = refl
  save-apart j ((k, c) ∷ m) w (e, keyed) h =
      save-apart j m _ keyed (ground (arith, h)) ∙ save_one-apart k j c w e (ground (arith, h))

  pub save-load :
      (j : String) (c : Cycle) (m : CycleMap) (w : W)
      → IsKeyed m
      → IsDistinct m
      → lookup_cycle j m ≡ some c
      → is_whole_collection c ≡ true
      → (rw'.load_metadata j (save_cycle_metadata rw' m w)).1 ≡ ok c.metadata
  unfolding save_cycle_metadata lookup_cycle
  save-load j c [] w keyed distinct h whole = cc h
  save-load j c ((k, x) ∷ m) w (e, keyed) (fresh, distinct) h whole =
      elim (Bool-cases (text_eq k j)) [
        | inl same ↦
            let kj : k ≡ j = ground (arith, same, eq_iff k j) in
            let xc : x ≡ c = ground (arith, same, h) in
            let id : j ≡ c.cycle_id = sym kj ∙ e ∙ ap (λ (y : Cycle). y.cycle_id) xc in
            save-apart j m _ keyed (ap (λ i. lookup_cycle i m) (sym kj) ∙ fresh)
            ∙ ap (λ y. (rw'.load_metadata j (save_one y w)).1) xc
            ∙ ap (λ i. (rw'.load_metadata i (save_one c w)).1) id
            ∙ save_one-load c w whole
        | inr other ↦ save-load j c m _ keyed distinct (ground (arith, h, other)) whole
      ]

  pub restore-lookup :
      (j : String) (c : Cycle) (m : CycleMap) (w : W)
      → lookup_cycle j m ≡ some c
      → is_whole_collection c ≡ true
      → lookup_cycle j (restore_cycles rw' m w).0 ≡ some (restored rw' c (rw'.load_metadata j w).1)
  unfolding restore_cycles lookup_cycle
  restore-lookup j c [] w h whole = cc h
  restore-lookup j c ((k, x) ∷ m) w h whole = elim (Bool-cases (text_eq k j)) [
    | inl same ↦
        let kj : k ≡ j = ground (arith, same, eq_iff k j) in
        let xc : x ≡ c = ground (arith, same, h) in
        rw same (
          ap (λ y. some (restore_one k y w)) xc
          ∙ ap (λ i. some (restore_one i c w)) kj
          ∙ rw whole refl)
    | inr other ↦ rw other (
        restore-lookup j c m (after_one k x w) (ground (arith, h, other)) whole
        ∙ ap (λ r. some (restored rw' c r)) (after_one-steady k j x w))
  ]
