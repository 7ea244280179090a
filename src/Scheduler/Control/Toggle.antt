-- ===== src/Scheduler/Control/Toggle.antt =====
-- scheduler/scheduler.go: the manual and the automatic toggle.
use publish_carousel.Prelude.{
  String, Bool, true, false, not, ◌&&◌, ◌||◌, Result, ok, err, panic, if◌then◌else◌, text_eq,
}
use publish_carousel.Scheduler.Mode.{
  Mode, stopped, disabled, auto_disabled, set_state, is_enabled, is_running,
  is_automatically_disabled,
}
use publish_carousel.Scheduler.Control.{Scheduler, MetadataReadWriter, shutdown}

-- `requestType`
pub data Request : Type 0 where
  automatic manual : Request

-- `strconv.ParseBool`
unfoldable pub parse_bool : String → Result Bool
parse_bool v =
    if text_eq v "1"
      || text_eq v "t"
      || text_eq v "T"
      || text_eq v "true"
      || text_eq v "TRUE"
      || text_eq v "True"
    then ok true
    else if text_eq v "0"
        || text_eq v "f"
        || text_eq v "F"
        || text_eq v "false"
        || text_eq v "FALSE"
        || text_eq v "False"
    then ok false
    else err "invalid syntax"

-- `toggleState, err := strconv.ParseBool(…)`: false beside an error, which is only logged.
abbrev pub or_false : Result Bool → Bool
or_false (ok b) = b
or_false (err e) = false
or_false panic = false

abbrev pub disabling : Request → Mode
disabling automatic = auto_disabled
disabling manual = disabled

abbrev pub disable : Request → Scheduler → Scheduler
disable r s = record s { state = set_state s.state (disabling r) }

-- Whether the state was disabled by a request of the same kind.
abbrev pub may_enable : Request → Scheduler → Bool
may_enable automatic s = is_automatically_disabled s.state
may_enable manual s = not (is_automatically_disabled s.state)

module _ {W : Type 0} (rw' : MetadataReadWriter W) where
  -- After the shutdown of a running scheduler.
  abbrev pub disable_after : Request → Scheduler × W × Result (Unit {0}) → Scheduler × W
  disable_after r (s, w, ok _) = (disable r s, w)
  disable_after r (s, w, err e) = (s, w)
  disable_after r (s, w, panic) = (s, w)

  unfoldable pub toggle : Bool → Request → Scheduler → W → Scheduler × W
  toggle on r s w =
      if not on && is_enabled s.state
      then (if is_running s.state then disable_after r (shutdown rw' s w) else (disable r s, w))
      else if on && not (is_running s.state) && may_enable r s
      then (record s { state = set_state s.state stopped }, w)
      else (s, w)

  -- `toggleHandler`
  unfoldable pub toggle_handler : String → Request → Scheduler → W → Scheduler × W
  unfolding toggle
  toggle_handler value r s w = toggle (or_false (parse_bool value)) r s w
