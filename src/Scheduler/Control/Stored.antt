-- ===== src/Scheduler/Control/Stored.antt =====
-- scheduler/scheduler.go: what each ID finds, in the map and in the store, after the calls that visit
-- every cycle.
use publish_carousel.Prelude.{
  String, ◌≡◌, refl, sym, ap, ◌∙◌, false, [], ◌∷◌, Option, none, some, Result, ok, err, panic, inl,
  inr, if◌then◌else◌, text_eq, eq_iff, arith, Bool-cases, Option-cases,
}
use publish_carousel.Scheduler.Metadata.{CycleMetadata}
use publish_carousel.Scheduler.Cycle.{Cycle, is_whole_collection, set_metadata}
use publish_carousel.Scheduler.Control.{
  CycleMap, MetadataReadWriter, lookup_cycle, delete_key, each_cycle, save_cycle_metadata, restored,
  restore_cycles,
}
use publish_carousel.Scheduler.Control.Keys.{IsKeyed, lookup-delete_key, lookup-each_cycle}
use publish_carousel.Scheduler.Control.Saved.{
  IsMemory, IsDistinct, each_cycle-missing, save-apart, save-load, save_one-apart, after_one-steady,
}

abbrev pub map_option {ℓ} : {A : Type ℓ} → (A → A) → Option A → Option A
map_option f none = none
map_option f (some a) = some (f a)

pub each_cycle-map_option :
    (f : Cycle → Cycle) (j : String) (m : CycleMap)
    → lookup_cycle j (each_cycle f m) ≡ map_option f (lookup_cycle j m)
each_cycle-map_option f j m = elim (Option-cases (lookup_cycle j m)) [
  | inl missing ↦ rw missing (each_cycle-missing f j m missing)
  | inr (c, found) ↦ rw found (lookup-each_cycle f j m c found)
]

pub delete_key-IsKeyed : (id : String) (m : CycleMap) → IsKeyed m → IsKeyed (delete_key id m)
unfolding delete_key
delete_key-IsKeyed id [] h = tt
delete_key-IsKeyed id ((k, c) ∷ m) (e, h) = elim (Bool-cases (text_eq k id)) [
  | inl same ↦ rw same (delete_key-IsKeyed id m h)
  | inr other ↦ rw other (e, delete_key-IsKeyed id m h)
]

pub delete_key-IsDistinct :
    (id : String) (m : CycleMap) → IsDistinct m → IsDistinct (delete_key id m)
unfolding delete_key
delete_key-IsDistinct id [] h = tt
delete_key-IsDistinct id ((k, c) ∷ m) (fresh, h) = elim (Bool-cases (text_eq k id)) [
  | inl same ↦ rw same (delete_key-IsDistinct id m h)
  | inr other ↦
      rw other (ground (arith, lookup-delete_key id k m, fresh), delete_key-IsDistinct id m h)
]

module _ {W : Type 0} (rw' : MetadataReadWriter W) where
  -- What is stored under an ID once the cycle there was saved.
  abbrev pub saved : Result CycleMetadata → Option Cycle → Result CycleMetadata
  saved r none = r
  saved r (some c) = if is_whole_collection c then ok c.metadata else r

  -- A cycle with what is stored under its ID.
  abbrev pub revived : Result CycleMetadata → Cycle → Cycle
  revived r c = if is_whole_collection c then restored rw' c r else c

  abbrev visited : String → Cycle → W → W
  visited id c w = if is_whole_collection c then (rw'.load_metadata id w).0 else w

  abbrev save_one : Cycle → W → W
  save_one c w =
      if is_whole_collection c then (rw'.write_metadata c.cycle_id c c.metadata w).0 else w

  restored_id : (r : Result CycleMetadata) (c : Cycle) → (restored rw' c r).cycle_id ≡ c.cycle_id
  unfolding set_metadata
  restored_id (ok m) c = refl
  restored_id (err e) c = refl
  restored_id panic c = refl

  revived_id : (r : Result CycleMetadata) (c : Cycle) → (revived r c).cycle_id ≡ c.cycle_id
  revived_id r c = elim (Bool-cases (is_whole_collection c)) [
    | inl whole ↦ rw whole (restored_id r c)
    | inr window ↦ rw window refl
  ]

  pub restore_cycles-IsKeyed :
      (m : CycleMap) (w : W) → IsKeyed m → IsKeyed (restore_cycles rw' m w).0
  unfolding restore_cycles
  restore_cycles-IsKeyed [] w h = tt
  restore_cycles-IsKeyed ((k, c) ∷ m) w (e, h) =
      (e ∙ sym (revived_id (rw'.load_metadata k w).1 c), restore_cycles-IsKeyed m (visited k c w) h)

  restore_cycles-missing :
      (j : String) (m : CycleMap) (w : W)
      → lookup_cycle j m ≡ none
      → lookup_cycle j (restore_cycles rw' m w).0 ≡ none
  unfolding restore_cycles lookup_cycle
  restore_cycles-missing j [] w h = refl
  restore_cycles-missing j ((k, c) ∷ m) w h =
      ground (arith, h, restore_cycles-missing j m (visited k c w))

  pub restore_cycles-IsDistinct :
      (m : CycleMap) (w : W) → IsDistinct m → IsDistinct (restore_cycles rw' m w).0
  unfolding restore_cycles
  restore_cycles-IsDistinct [] w d = tt
  restore_cycles-IsDistinct ((k, c) ∷ m) w (fresh, d) = (
    restore_cycles-missing k m (visited k c w) fresh,
    restore_cycles-IsDistinct m (visited k c w) d,
  )

  module _ (law : IsMemory rw') where
    save-window :
        (j : String) (c : Cycle) (m : CycleMap) (w : W)
        → IsKeyed m
        → IsDistinct m
        → lookup_cycle j m ≡ some c
        → is_whole_collection c ≡ false
        → (rw'.load_metadata j (save_cycle_metadata rw' m w)).1 ≡ (rw'.load_metadata j w).1
    unfolding save_cycle_metadata lookup_cycle
    save-window j c [] w keyed distinct h window = refl
    save-window j c ((k, x) ∷ m) w (e, keyed) (fresh, distinct) h window =
        elim (Bool-cases (text_eq k j)) [
          | inl same ↦
              let kj : k ≡ j = ground (arith, same, eq_iff k j) in
              let xc : x ≡ c = ground (arith, same, h) in
              save-apart rw' law j m _ keyed (ap (λ i. lookup_cycle i m) (sym kj) ∙ fresh)
              ∙ ap (λ y. (rw'.load_metadata j (save_one y w)).1) xc
              ∙ rw window refl
          | inr other ↦
              save-window j c m _ keyed distinct (ground (arith, h, other)) window
              ∙ save_one-apart rw' law k j x w e other
        ]

    -- After `saveCycleMetadata`, every ID loads what was saved of its cycle, or what it loaded before.
    pub save_cycle_metadata-saved :
        (j : String) (m : CycleMap) (w : W)
        → IsKeyed m
        → IsDistinct m
        → (rw'.load_metadata j (save_cycle_metadata rw' m w)).1
          ≡ saved (rw'.load_metadata j w).1 (lookup_cycle j m)
    save_cycle_metadata-saved j m w keyed distinct = elim (Option-cases (lookup_cycle j m)) [
      | inl missing ↦ rw missing (save-apart rw' law j m w keyed missing)
      | inr (c, found) ↦ elim (Bool-cases (is_whole_collection c)) [
        | inl whole ↦ rw (found, whole) (save-load rw' law j c m w keyed distinct found whole)
        | inr window ↦ rw (found, window) (save-window j c m w keyed distinct found window)
      ]
    ]

    -- After `RestorePreviousState`, every ID finds its cycle with what is stored.
    pub restore_cycles-revived :
        (j : String) (m : CycleMap) (w : W)
        → lookup_cycle j (restore_cycles rw' m w).0
          ≡ map_option (revived (rw'.load_metadata j w).1) (lookup_cycle j m)
    unfolding restore_cycles lookup_cycle
    restore_cycles-revived j [] w = refl
    restore_cycles-revived j ((k, c) ∷ m) w = elim (Bool-cases (text_eq k j)) [
      | inl same ↦
          let kj : k ≡ j = ground (arith, same, eq_iff k j) in
          rw same (ap (λ i. some (revived (rw'.load_metadata i w).1 c)) kj)
      | inr other ↦ rw other (
          restore_cycles-revived j m (visited k c w)
          ∙ ap (λ r. map_option (revived r) (lookup_cycle j m)) (after_one-steady rw' law k j c w))
    ]

    -- And every ID loads what it loaded before.
    pub restore_cycles-steady :
        (j : String) (m : CycleMap) (w : W)
        → (rw'.load_metadata j (restore_cycles rw' m w).1).1 ≡ (rw'.load_metadata j w).1
    unfolding restore_cycles
    restore_cycles-steady j [] w = refl
    restore_cycles-steady j ((k, c) ∷ m) w =
        restore_cycles-steady j m (visited k c w) ∙ after_one-steady rw' law k j c w
