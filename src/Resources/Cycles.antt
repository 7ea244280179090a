-- ===== src/Resources/Cycles.antt =====
-- resources/cycles.go: the HTTP handlers of the cycles, as operations on the scheduler that give a
-- response. The `id` is the request's parameter, and a body comes as what the JSON decoder made of
-- it. A cycle that stands in the map is changed where it stands, since the map holds pointers.
pub mod Changes
pub mod NewThrottle
pub mod Readers
use publish_carousel.Prelude.{
  ℕ, String, false, [], ◌∷◌, Option, none, some, Error, Result, ok, err, panic, if◌then◌else◌,
  concat, text_eq, before,
}
use publish_carousel.Prelude.Int.{pos}
use publish_carousel.Scheduler.Duration.{DurationText}
use publish_carousel.Scheduler.Metadata.{CycleMetadata}
use publish_carousel.Scheduler.Throttle.{DefaultThrottle, TextMap, unmarshal_throttle}
use publish_carousel.Scheduler.Cycle.{
  Cycle, whole_collection, scaling_window, start, stop, reset, set_metadata,
}
use publish_carousel.Scheduler.Config.{CycleConfig, validate, new_cycle, transform_to_config}
use publish_carousel.Scheduler.Control.{CycleMap, Scheduler, lookup_cycle, add_cycle, delete_cycle}

-- The status, and the Location header where one is sent.
pub record Response : Type 0 where
  pub status : ℕ
  pub location : Option String

abbrev pub reply : ℕ → Response
reply status = record { status = status; location = none }

-- A method of the cycle that stands at the ID.
unfoldable pub change_cycle : (Cycle → Cycle) → String → CycleMap → CycleMap
change_cycle f id [] = []
change_cycle f id ((k, c) ∷ m) =
    let rest = change_cycle f id m in if text_eq k id then (k, f c) ∷ m else (k, c) ∷ rest

abbrev pub change_found : (Cycle → Cycle) → String → Scheduler → Option Cycle → Scheduler × Response
change_found f id s none = (s, reply 404)
change_found f id s (some c) = (record s { cycles = change_cycle f id s.cycles }, reply 200)

unfoldable pub on_cycle : (Cycle → Cycle) → String → Scheduler → Scheduler × Response
on_cycle f id s = change_found f id s (lookup_cycle id s.cycles)

-- `ResumeCycle`
abbrev pub resume_cycle : String → Scheduler → Scheduler × Response
resume_cycle = on_cycle start

-- `ResetCycle`
abbrev pub reset_cycle : String → Scheduler → Scheduler × Response
reset_cycle = on_cycle reset

-- `StopCycle`
abbrev pub stop_cycle : String → Scheduler → Scheduler × Response
stop_cycle = on_cycle stop

abbrev pub deleted : Scheduler × Option Cycle × Option Error → Scheduler × Response
deleted (s, c, some e) = (s, reply 404)
deleted (s, c, none) = (s, reply 204)

-- `DeleteCycle`
unfoldable pub delete_handler : String → Scheduler → Scheduler × Response
delete_handler id s = deleted (delete_cycle id s)

-- `cycleURL`, of the header X-Original-Request-URL, empty where it is missing.
abbrev base_url : Option String → String
base_url none = ""
base_url (some base) = base

unfoldable pub cycle_url : String → String → String
cycle_url original id = concat (base_url (before "/cycles" original) ∷ "/cycles/" ∷ id ∷ [])

abbrev pub with_metadata : Option CycleMetadata → Cycle → Cycle
with_metadata none c = c
with_metadata (some m) c = set_metadata m c

abbrev pub added : String → Scheduler × Option Error → Scheduler × Result String
added id (s, none) = (s, ok id)
added id (s, some e) = (s, err e)

-- `var newThrottle scheduler.DefaultThrottle`
abbrev pub zero_throttle : DefaultThrottle
zero_throttle = record { interval = pos 0; rate = pos 0; burst = 0; cancelled = false }

module _ (d : DurationText) (digest : String → String) where
  abbrev pub created :
      Option CycleMetadata → Scheduler → Result (Option Cycle) → Scheduler × Result String
  created metadata s (err e) = (s, err e)
  created metadata s panic = (s, panic)
  created metadata s (ok none) = (s, panic)
  created metadata s (ok (some c)) =
      let c' = with_metadata metadata c in added c'.cycle_id (add_cycle c' s)

  -- `createCycle`: the ID of the cycle, of which the handlers read no more.
  unfoldable pub create_cycle :
      CycleConfig → Option CycleMetadata → Scheduler → Scheduler × Result String
  create_cycle config metadata s = created metadata s (new_cycle d digest s.default_throttle config)

  -- The header that is set after `WriteHeader` is not sent.
  abbrev pub answer_created : Scheduler × Result String → Scheduler × Result Response
  answer_created (s, ok id) = (s, ok (reply 201))
  answer_created (s, err e) = (s, ok (reply 500))
  answer_created (s, panic) = (s, panic)

  abbrev pub create_valid :
      CycleConfig → Scheduler → Result (Unit {0}) → Scheduler × Result Response
  create_valid config s (ok _) = answer_created (create_cycle config none s)
  create_valid config s (err e) = (s, ok (reply 400))
  create_valid config s panic = (s, panic)

  -- `CreateCycle`
  unfoldable pub create_handler : Result CycleConfig → Scheduler → Scheduler × Result Response
  unfolding create_cycle
  create_handler (ok config) s = create_valid config s (validate d config)
  create_handler (err e) s = (s, ok (reply 400))
  create_handler panic s = (s, panic)

  abbrev pub redirected : String → Scheduler × Result String → Scheduler × Result Response
  redirected url (s, ok id) = (s, ok (record { status = 303; location = some (cycle_url url id) }))
  redirected url (s, err e) = (s, ok (reply 500))
  redirected url (s, panic) = (s, panic)

  -- The cycle is deleted, and made again from its configuration with the new throttle and the
  -- metadata that it had before.
  unfoldable pub replace_throttle :
      String → Cycle → DefaultThrottle → Scheduler → Scheduler × Result Response
  unfolding create_cycle
  replace_throttle url c t s =
      let s' = (delete_cycle c.cycle_id s).0 in
      let config : CycleConfig = record (transform_to_config d (stop c)) {
        throttle = d.duration_string t.interval;
      } in
      redirected url (create_cycle config (some c.metadata) s')

  abbrev pub set_decoded :
      String → Cycle → Scheduler → Result DefaultThrottle → Scheduler × Result Response
  set_decoded url c s (ok t) = replace_throttle url c t s
  set_decoded url c s (err e) = (s, ok (reply 400))
  set_decoded url c s panic = (s, panic)

  abbrev pub set_found :
      String → Result TextMap → Scheduler → Option Cycle → Scheduler × Result Response
  set_found url body s none = (s, ok (reply 404))
  set_found url body s (some c) = elim c.kind [
    | whole_collection t ↦ set_decoded url c s (unmarshal_throttle d zero_throttle body)
    | scaling_window w lo hi ↦ (s, ok (reply 400))
  ]

  -- `SetCycleThrottle`, with the header X-Original-Request-URL.
  unfoldable pub set_cycle_throttle :
      String → String → Result TextMap → Scheduler → Scheduler × Result Response
  unfolding replace_throttle
  set_cycle_throttle url id body s = set_found url body s (lookup_cycle id s.cycles)
