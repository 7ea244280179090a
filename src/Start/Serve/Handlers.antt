-- ===== src/Start/Serve/Handlers.antt =====
-- resources/cycles.go: what the handlers of the cycles keep of the scheduler.
use publish_carousel.Prelude.{
  inl, inr, String, ◌≡◌, refl, sym, ◌∙◌, [], ◌∷◌, Option, none, some, Error, Result, ok, err, panic,
  text_eq, arith, Bool-cases,
}
use publish_carousel.Scheduler.Metadata.{CycleMetadata}
use publish_carousel.Scheduler.Duration.{DurationText}
use publish_carousel.Scheduler.Config.{CycleConfig, validate, new_cycle}
use publish_carousel.Scheduler.Throttle.{DefaultThrottle, TextMap, unmarshal_throttle}
use publish_carousel.Scheduler.Cycle.{Cycle, Kind, whole_collection, scaling_window}
use publish_carousel.Scheduler.Control.{CycleMap, Scheduler, lookup_cycle, add_cycle, delete_cycle}
use publish_carousel.Scheduler.Control.Keys.{IsKeyed}
use publish_carousel.Scheduler.Control.Life.{
  IsWell, IsWell-same, add_cycle-state, delete_cycle-state,
}
use publish_carousel.Scheduler.Control.Saved.{IsDistinct}
use publish_carousel.Scheduler.Control.Abstract.Sound.{
  IsSound, IsTidy, add_at-IsTidy, delete_at-IsTidy,
}
use publish_carousel.Resources.Cycles.{
  Response, reply, change_cycle, change_found, on_cycle, deleted, with_metadata, added, created,
  create_cycle, answer_created, create_valid, create_handler, redirected, replace_throttle,
  set_decoded, set_found, set_cycle_throttle, zero_throttle,
}

abbrev pub sound : {s : Scheduler} → IsWell s → IsTidy s.cycles → IsSound s
sound v (k, t) = record { well = v; keyed = k; distinct = t }

pub tidy : {s : Scheduler} → IsSound s → IsTidy s.cycles
tidy v = (v.keyed, v.distinct)

add_cycle-IsSound : (c : Cycle) (s : Scheduler) → IsSound s → IsSound (add_cycle c s).0
unfolding add_cycle
add_cycle-IsSound c s v =
    sound (IsWell-same (add_cycle-state c s).0 (add_cycle-state c s).1 v.well)
      (add_at-IsTidy c s (lookup_cycle c.cycle_id s.cycles) refl (tidy v))

pub delete_cycle-IsSound : (id : String) (s : Scheduler) → IsSound s → IsSound (delete_cycle id s).0
unfolding delete_cycle
delete_cycle-IsSound id s v =
    sound (IsWell-same (delete_cycle-state id s).0 (delete_cycle-state id s).1 v.well)
      (delete_at-IsTidy id s (lookup_cycle id s.cycles) (tidy v))

-- A method of one cycle that keeps its ID.
module _ (f : Cycle → Cycle) (same : (c : Cycle) → (f c).cycle_id ≡ c.cycle_id) where
  change_cycle-IsKeyed : (id : String) (m : CycleMap) → IsKeyed m → IsKeyed (change_cycle f id m)
  unfolding change_cycle
  change_cycle-IsKeyed id [] h = tt
  change_cycle-IsKeyed id ((k, c) ∷ m) (e, h) = elim (Bool-cases (text_eq k id)) [
    | inl x ↦ rw x (e ∙ sym (same c), h)
    | inr x ↦ rw x (e, change_cycle-IsKeyed id m h)
  ]

  change_cycle-missing :
      (id j : String) (m : CycleMap)
      → lookup_cycle j m ≡ none
      → lookup_cycle j (change_cycle f id m) ≡ none
  unfolding change_cycle lookup_cycle
  change_cycle-missing id j [] h = refl
  change_cycle-missing id j ((k, c) ∷ m) h = ground (arith, h, change_cycle-missing id j m)

  change_cycle-IsDistinct :
      (id : String) (m : CycleMap) → IsDistinct m → IsDistinct (change_cycle f id m)
  unfolding change_cycle
  change_cycle-IsDistinct id [] h = tt
  change_cycle-IsDistinct id ((k, c) ∷ m) (fresh, h) = elim (Bool-cases (text_eq k id)) [
    | inl x ↦ rw x (fresh, h)
    | inr x ↦ rw x (change_cycle-missing id k m fresh, change_cycle-IsDistinct id m h)
  ]

  change_found-IsSound :
      (id : String) (s : Scheduler) (o : Option Cycle)
      → IsSound s
      → IsSound (change_found f id s o).0
  change_found-IsSound id s none v = v
  change_found-IsSound id s (some c) v =
      sound (IsWell-same refl refl v.well)
        (change_cycle-IsKeyed id s.cycles v.keyed, change_cycle-IsDistinct id s.cycles v.distinct)

  pub on_cycle-IsSound : (id : String) (s : Scheduler) → IsSound s → IsSound (on_cycle f id s).0
  unfolding on_cycle
  on_cycle-IsSound id s v = change_found-IsSound id s (lookup_cycle id s.cycles) v

pub deleted-IsSound :
    (a : Scheduler × Option Cycle × Option Error) → IsSound a.0 → IsSound (deleted a).0
deleted-IsSound (s, c, none) v = v
deleted-IsSound (s, c, some e) v = v

module _ (d : DurationText) (digest : String → String) where
  added-IsSound :
      (id : String) (a : Scheduler × Option Error) → IsSound a.0 → IsSound (added id a).0
  added-IsSound id (s, none) v = v
  added-IsSound id (s, some e) v = v

  created-IsSound :
      (m : Option CycleMetadata) (s : Scheduler) (r : Result (Option Cycle))
      → IsSound s
      → IsSound (created d digest m s r).0
  created-IsSound m s (err e) v = v
  created-IsSound m s panic v = v
  created-IsSound m s (ok none) v = v
  created-IsSound m s (ok (some c)) v =
      let c' = with_metadata m c in
      added-IsSound c'.cycle_id (add_cycle c' s) (add_cycle-IsSound c' s v)

  create_cycle-IsSound :
      (config : CycleConfig) (m : Option CycleMetadata) (s : Scheduler)
      → IsSound s
      → IsSound (create_cycle d digest config m s).0
  unfolding create_cycle
  create_cycle-IsSound config m s v =
      created-IsSound m s (new_cycle d digest s.default_throttle config) v

  answer_created-IsSound :
      (a : Scheduler × Result String) → IsSound a.0 → IsSound (answer_created d digest a).0
  answer_created-IsSound (s, ok id) v = v
  answer_created-IsSound (s, err e) v = v
  answer_created-IsSound (s, panic) v = v

  create_valid-IsSound :
      (config : CycleConfig) (s : Scheduler) (r : Result (Unit {0}))
      → IsSound s
      → IsSound (create_valid d digest config s r).0
  create_valid-IsSound config s (ok _) v =
      answer_created-IsSound (create_cycle d digest config none s)
        (create_cycle-IsSound config none s v)
  create_valid-IsSound config s (err e) v = v
  create_valid-IsSound config s panic v = v

  pub create_handler-IsSound :
      (body : Result CycleConfig) (s : Scheduler)
      → IsSound s
      → IsSound (create_handler d digest body s).0
  unfolding create_handler
  create_handler-IsSound (ok config) s v = create_valid-IsSound config s (validate d config) v
  create_handler-IsSound (err e) s v = v
  create_handler-IsSound panic s v = v

  redirected-IsSound :
      (url : String) (a : Scheduler × Result String)
      → IsSound a.0
      → IsSound (redirected d digest url a).0
  redirected-IsSound url (s, ok id) v = v
  redirected-IsSound url (s, err e) v = v
  redirected-IsSound url (s, panic) v = v

  replace_throttle-IsSound :
      (url : String) (c : Cycle) (t : DefaultThrottle) (s : Scheduler)
      → IsSound s
      → IsSound (replace_throttle d digest url c t s).0
  unfolding replace_throttle
  replace_throttle-IsSound url c t s v = redirected-IsSound url _ (
      create_cycle-IsSound _ (some c.metadata) (delete_cycle c.cycle_id s).0
        (delete_cycle-IsSound c.cycle_id s v))

  set_decoded-IsSound :
      (url : String) (c : Cycle) (s : Scheduler) (r : Result DefaultThrottle)
      → IsSound s
      → IsSound (set_decoded d digest url c s r).0
  set_decoded-IsSound url c s (ok t) v = replace_throttle-IsSound url c t s v
  set_decoded-IsSound url c s (err e) v = v
  set_decoded-IsSound url c s panic v = v

  set_found-IsSound :
      (url : String) (body : Result TextMap) (s : Scheduler) (o : Option Cycle)
      → IsSound s
      → IsSound (set_found d digest url body s o).0
  set_found-IsSound url body s none v = v
  set_found-IsSound url body s (some c) v = by_kind c.kind
    where
      by_kind :
          (k : Kind)
          → IsSound
              (elim k as (λ x. Scheduler × Result Response) [
                | whole_collection t ↦
                    set_decoded d digest url c s (unmarshal_throttle d zero_throttle body)
                | scaling_window w lo hi ↦ (s, ok (reply 400))
              ]).0
      by_kind (whole_collection t) =
          set_decoded-IsSound url c s (unmarshal_throttle d zero_throttle body) v
      by_kind (scaling_window w lo hi) = v

  pub set_cycle_throttle-IsSound :
      (url id : String) (body : Result TextMap) (s : Scheduler)
      → IsSound s
      → IsSound (set_cycle_throttle d digest url id body s).0
  unfolding set_cycle_throttle
  set_cycle_throttle-IsSound url id body s v =
      set_found-IsSound url body s (lookup_cycle id s.cycles) v
