-- ===== src/Start/Watching/Forgotten.antt =====
-- main.go and scheduler/scheduler.go: a toggle that goes off while the other one is off.
use publish_carousel.Prelude.{String, ◌≡◌, ap, ◌∙◌, true, false, List, [], ◌∷◌, arith}
use publish_carousel.Scheduler.Duration.{DurationText}
use publish_carousel.Scheduler.Mode.{stopped, is_enabled}
use publish_carousel.Scheduler.Control.{Scheduler, MetadataReadWriter}
use publish_carousel.Scheduler.Control.Toggle.{Request, automatic, manual, toggle_handler}
use publish_carousel.Scheduler.Control.Life.{IsWell, next_mode, toggle-IsWell, toggle-next_mode}
use publish_carousel.Start.Toggles.{is_on}
use publish_carousel.Start.Serve.{toggles, serve}

abbrev pub other : Request → Request
other manual = automatic
other automatic = manual

toggle_handler-IsWell :
    {W : Type 0} (rw' : MetadataReadWriter W) (value : String) (r : Request) (s : Scheduler) (w : W)
    → IsWell s
    → IsWell (toggle_handler rw' value r s w).0
unfolding toggle_handler
toggle_handler-IsWell rw' value r s w v = toggle-IsWell rw' (is_on value) r s w v

off_off_on :
    (r : Request) (s : Scheduler)
    → is_enabled s.state ≡ true
    → next_mode true r (next_mode false (other r) (next_mode false r s.state.current_state))
      ≡ stopped
unfolding next_mode is_enabled
off_off_on manual s e = ground (arith, e)
off_off_on automatic s e = ground (arith, e)

module _ {W : Type 0} (rw' : MetadataReadWriter W) (d : DurationText) (digest : String → String)
    (to_json : List String → String) where
  -- On a well scheduler that is enabled, one toggle goes off, then the other one, and then the first
  -- comes on again: the scheduler is enabled, and stopped, while the other toggle is off.
  serve-off_off_on :
      (r : Request) (first second third : String) (s : Scheduler) (w : W)
      → IsWell s
      → is_enabled s.state ≡ true
      → is_on first ≡ false
      → is_on second ≡ false
      → is_on third ≡ true
      → (serve rw' d digest to_json
          (toggles first r ∷ toggles second (other r) ∷ toggles third r ∷ [])
          (s, w)).0.state.current_state
        ≡ stopped
  unfolding serve
  serve-off_off_on r first second third s w v enabled f g h =
      let a = toggle_handler rw' first r s w in
      let b = toggle_handler rw' second (other r) a.0 a.1 in
      toggle-next_mode rw' third r b.0 b.1 (
        toggle_handler-IsWell rw' second (other r) a.0 a.1
          (toggle_handler-IsWell rw' first r s w v))
      ∙ ap (next_mode (is_on third) r) (
          toggle-next_mode rw' second (other r) a.0 a.1 (toggle_handler-IsWell rw' first r s w v)
          ∙ ap (next_mode (is_on second) (other r)) (toggle-next_mode rw' first r s w v))
      ∙ rw (f, g, h) (off_off_on r s enabled)
