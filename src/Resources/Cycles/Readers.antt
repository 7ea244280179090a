-- ===== src/Resources/Cycles/Readers.antt =====
-- resources/cycles.go: the handlers that answer with cycles and throttles as JSON. What `json.Marshal`
-- makes of a list of cycles, of a cycle and of a map of texts is a parameter.
use Prim.Native.String.{◌++◌ as append}
use publish_carousel.Prelude.{
  ℕ, String, List, [], ◌∷◌, Option, none, some, Error, ◌⊎◌, inl, inr, Result, ok, panic,
  if◌then◌else◌, text_eq,
}
use publish_carousel.Scheduler.Duration.{DurationText}
use publish_carousel.Scheduler.Throttle.{new_throttle, TextMap, marshal_throttle}
use publish_carousel.Scheduler.Cycle.{
  Cycle, whole_collection, scaling_window, throttled_whole_collection_type,
}
use publish_carousel.Scheduler.Control.{CycleMap, Scheduler, lookup_cycle}

-- What is written after the header: encoded data, or the text of an error.
pub data Body (B : Type 0) : Type 0 where
  json : B → Body B
  text : String → Body B

pub record Answer (B : Type 0) : Type 0 where
  pub status : ℕ
  pub body : Body B

-- The cycles of the map, in the order of the range over it.
unfoldable pub cycles_of : CycleMap → List Cycle
cycles_of [] = []
cycles_of ((k, c) ∷ m) = c ∷ cycles_of m

-- `findCycle`, where the ID has no cycle.
abbrev pub cycle_not_found : {B : Type 0} → String → Answer B
cycle_not_found id = record { status = 404; body = text (append "Cycle not found with ID: " id) }

abbrev pub not_throttled : {B : Type 0} → String → Answer B
not_throttled id = record { status = 404; body = text (append "Cycle is not throttled: " id) }

-- After `json.Marshal`.
abbrev pub marshalled : {B : Type 0} → Error ⊎ B → Answer B
marshalled (inl e) = record { status = 500; body = text e }
marshalled (inr data') = record { status = 200; body = json data' }

-- `GetCycles`
unfoldable pub get_cycles : {B : Type 0} → (List Cycle → Error ⊎ B) → Scheduler → Answer B
unfolding cycles_of
get_cycles marshal s = marshalled (marshal (cycles_of s.cycles))

abbrev pub shown : {B : Type 0} → (Cycle → Error ⊎ B) → String → Option Cycle → Answer B
shown marshal id none = cycle_not_found id
shown marshal id (some c) = marshalled (marshal c)

-- `GetCycleForID`
unfoldable pub get_cycle_for_id : {B : Type 0} → (Cycle → Error ⊎ B) → String → Scheduler → Answer B
get_cycle_for_id marshal id s = shown marshal id (lookup_cycle id s.cycles)

module _ {B : Type 0} (d : DurationText) (marshal : TextMap → Error ⊎ B) where
  -- A failed cast reports an error that is nil.
  abbrev pub throttle_of : Cycle → Result (Answer B)
  throttle_of c = elim c.kind [
    | whole_collection t ↦ ok (marshalled (marshal (marshal_throttle d (new_throttle t 1))))
    | scaling_window w lo hi ↦ panic
  ]

  abbrev pub shown_throttle : String → Option Cycle → Result (Answer B)
  shown_throttle id none = ok (cycle_not_found id)
  shown_throttle id (some c) =
      if text_eq c.cycle_type throttled_whole_collection_type
      then throttle_of c
      else ok (not_throttled c.cycle_id)

  -- `GetCycleThrottle`
  unfoldable pub get_cycle_throttle : String → Scheduler → Result (Answer B)
  get_cycle_throttle id s = shown_throttle id (lookup_cycle id s.cycles)
