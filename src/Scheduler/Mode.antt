-- ===== src/Scheduler/Mode.antt =====
-- scheduler/scheduler.go: the scheduler's own state and its transitions.
use publish_carousel.Prelude.{Bool, true, false, not, ◌&&◌, if◌then◌else◌}

pub data Mode : Type 0 where
  unknown running stopped disabled auto_disabled : Mode

-- `==` on the constants.
abbrev pub mode_eq : Mode → Mode → Bool
mode_eq unknown unknown = true
mode_eq running running = true
mode_eq stopped stopped = true
mode_eq disabled disabled = true
mode_eq auto_disabled auto_disabled = true
mode_eq _ _ = false

pub record SchedulerState : Type 0 where
  pub current_state : Mode
  pub previous_state : Mode

unfoldable pub new_scheduler_state : SchedulerState
new_scheduler_state = record { current_state = disabled; previous_state = unknown }

unfoldable pub set_state : SchedulerState → Mode → SchedulerState
set_state s value =
    if not (mode_eq s.current_state value)
    then record { current_state = value; previous_state = s.current_state }
    else s

unfoldable pub is_enabled : SchedulerState → Bool
is_enabled s = not (mode_eq s.current_state disabled) && not (mode_eq s.current_state auto_disabled)

unfoldable pub is_running : SchedulerState → Bool
is_running s = mode_eq s.current_state running

unfoldable pub is_automatically_disabled : SchedulerState → Bool
is_automatically_disabled s = mode_eq s.current_state auto_disabled

unfoldable pub was_automatically_disabled : SchedulerState → Bool
was_automatically_disabled s = mode_eq s.previous_state auto_disabled
