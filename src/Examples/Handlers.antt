-- ===== src/Examples/Handlers.antt =====
-- The handlers on a scheduler with one cycle, and a file with one configuration.
use publish_carousel.Prelude.{
  ℕ, String, ◌≡◌, refl, ◌≢◌, ◌↔◌, [], ◌∷◌, Error, ◌⊎◌, inl, inr, Option, none, some, ok, panic,
  arith, is_blank, lowers_to, if◌then◌else◌, text_eq, length,
}
use publish_carousel.Prelude.Int.{pos}
use publish_carousel.Scheduler.Metadata.{blank_metadata}
use publish_carousel.Scheduler.Mode.{running}
use publish_carousel.Scheduler.Throttle.{TextMap, lookup_text, unmarshal_throttle}
use publish_carousel.Scheduler.Cycle.{Cycle, new_throttled_whole_collection_cycle, set_metadata}
use publish_carousel.Scheduler.Config.{
  check_durations, validate_type, validate, make_cycle, new_cycle,
}
use publish_carousel.Scheduler.Control.{Scheduler, lookup_cycle}
use publish_carousel.Scheduler.Control.Keys.{launched}
use publish_carousel.Scheduler.LoadFile.{load_scheduler}
use publish_carousel.Scheduler.LoadFile.Counts.{load_scheduler-cycles}
use publish_carousel.Resources.Cycles.{
  reply, delete_handler, create_handler, cycle_url, zero_throttle, set_cycle_throttle,
}
use publish_carousel.Resources.Cycles.Readers.{
  marshalled, cycle_not_found, get_cycle_for_id, get_cycle_throttle,
}
use publish_carousel.Resources.Cycles.Changes.{delete_handler-create_handler}
use publish_carousel.Resources.Cycles.NewThrottle.{started_cycle, set_cycle_throttle-lookup}
use publish_carousel.Examples.Configs.{minute, all_minutes, archive, archive_valid}
use publish_carousel.Examples.Schedules.{with_one}

-- The digest of every text is "0123".
abbrev digest : String → String
digest text = "0123"

abbrev made : Cycle
made =
    new_throttled_whole_collection_cycle digest all_minutes "methode-whole-archive" "methode"
      "methode-web-pub" minute minute

-- An encoder that writes the ID of a cycle.
abbrev encode_id : Cycle → Error ⊎ String
encode_id c = inr c.cycle_id

delete_handler-create_handler_example :
    let created = create_handler all_minutes digest (ok archive) (with_one running 1) in
    (created.1 ≡ ok (reply 201))
    × (lookup_cycle made.cycle_id created.0.cycles ≡ some (launched (with_one running 1) made))
    × (get_cycle_for_id encode_id made.cycle_id created.0
        ≡ marshalled (encode_id (launched (with_one running 1) made)))
    × ((delete_handler made.cycle_id created.0).1 ≡ reply 204)
    × ((j : String)
        → lookup_cycle j (delete_handler made.cycle_id created.0).0.cycles
          ≡ lookup_cycle j (with_one running 1).cycles)
    × (get_cycle_for_id encode_id made.cycle_id (delete_handler made.cycle_id created.0).0
        ≡ cycle_not_found made.cycle_id)
unfolding new_cycle make_cycle validate validate_type check_durations is_blank lowers_to
    lookup_cycle
delete_handler-create_handler_example =
    delete_handler-create_handler encode_id all_minutes digest archive (with_one running 1) made
      archive_valid refl refl

abbrev started : Cycle
started =
    started_cycle all_minutes digest "methode-whole-archive" "methode" "methode-web-pub" minute
      (pos 1) blank_metadata 1 (some 0) (0 ∷ [])

abbrev only : Scheduler
only = record (with_one running 1) { cycles = (started.cycle_id, started) ∷ [] }

-- An encoder that writes the first value of a map, and fails on an empty one.
abbrev encode_first : TextMap → Error ⊎ String
encode_first [] = inl "nothing"
encode_first ((k, v) ∷ m) = inr v

set_cycle_throttle-lookup_example :
    let after =
      set_cycle_throttle all_minutes digest "" started.cycle_id
        (ok (("interval", "1m") ∷ []))
        only in
    (after.1 ≡ ok (record { status = 303; location = some (cycle_url "" started.cycle_id) }))
    × ((j : String)
        → lookup_cycle j after.0.cycles ≡ (
            if text_eq started.cycle_id j
            then some (launched only (set_metadata blank_metadata made))
            else lookup_cycle j only.cycles))
    × (get_cycle_throttle all_minutes encode_first started.cycle_id after.0
        ≡ ok (marshalled (encode_first (("interval", all_minutes.duration_string minute) ∷ []))))
unfolding lookup_cycle unmarshal_throttle lookup_text is_blank new_throttled_whole_collection_cycle
set_cycle_throttle-lookup_example =
    set_cycle_throttle-lookup all_minutes digest encode_first "" "methode-whole-archive" "methode"
      "methode-web-pub" minute (pos 1) blank_metadata 1 (some 0) (0 ∷ []) (("interval", "1m") ∷ [])
      (record zero_throttle { interval = minute }) only refl refl refl refl refl refl refl refl

never_panics : (t : String) → all_minutes.parse_duration t ≢ panic
never_panics t h = ground (arith, h)

load_scheduler-cycles_example :
    (s : Scheduler) × (e : Option Error) × (load_scheduler all_minutes digest
        (λ (bytes : ℕ). inr (archive ∷ []))
        (inr 0)
        minute
      ≡ ok (s, e))
    × ((e ≡ none) ↔ (length s.cycles ≡ 1))
load_scheduler-cycles_example =
    load_scheduler-cycles all_minutes never_panics digest (λ (bytes : ℕ). inr (archive ∷ [])) 0
      archive [] minute refl
