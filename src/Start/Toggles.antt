-- ===== src/Start/Toggles.antt =====
-- main.go: when the scheduler runs after the start of the program.
use publish_carousel.Prelude.{
  String, ◌≡◌, refl, Bool, true, false, ◌&&◌, not, if◌then◌else◌, Result, ok, panic, Bool-cases,
  inl, inr,
}
use publish_carousel.Prelude.Int.{ℤ, pos, ltb_ℤ}
use publish_carousel.Scheduler.Mode.{
  new_scheduler_state, set_state, is_enabled, is_running, is_automatically_disabled, stopped,
}
use publish_carousel.Scheduler.Control.{
  Scheduler, MetadataReadWriter, shutdown, restore_previous_state, start_scheduler,
  start_with_interval,
}
use publish_carousel.Scheduler.Control.Toggle.{
  manual, automatic, toggle, toggle_handler, parse_bool, or_false,
}
use publish_carousel.Start.{start_up, unless_panic, start_up_with_interval}

-- What the text of a toggle says.
abbrev pub is_on : String → Bool
is_on value = or_false (parse_bool value)

module _ {W : Type 0} (rw' : MetadataReadWriter W) where
  -- The two toggles, on a scheduler that was just loaded.
  abbrev toggled : Bool → Bool → Scheduler → W → Scheduler × W
  toggled m a s w = let t = toggle rw' m manual s w in toggle rw' a automatic t.0 t.1

  abbrev started : Scheduler × W → Scheduler × W
  started t = let c = restore_previous_state rw' t.0 t.1 in ((start_scheduler c.0).0, c.1)

  started-running :
      (m a : Bool) (s : Scheduler) (w : W)
      → s.state ≡ new_scheduler_state
      → is_running (started (toggled m a s w)).0.state ≡ (m && a)
  unfolding toggle start_scheduler restore_previous_state is_running is_enabled
      is_automatically_disabled set_state new_scheduler_state shutdown
  started-running true true s w e = rw e refl
  started-running true false s w e = rw e refl
  started-running false true s w e = rw e refl
  started-running false false s w e = rw e refl

  -- After the start of the program, the scheduler that was loaded runs exactly where the manual and
  -- the automatic toggle both have a text that reads as true.
  pub start_up-running :
      (manual_toggle auto_toggle : String) (s : Scheduler) (w : W)
      → s.state ≡ new_scheduler_state
      → is_running (start_up rw' manual_toggle auto_toggle s w).0.state
        ≡ (is_on manual_toggle && is_on auto_toggle)
  unfolding start_up toggle_handler
  start_up-running manual_toggle auto_toggle s w e =
      started-running (is_on manual_toggle) (is_on auto_toggle) s w e

  -- Two toggles that are on enable it, and change nothing else.
  pub toggled_on :
      (s : Scheduler) (w : W)
      → s.state ≡ new_scheduler_state
      → toggled true true s w ≡ (record s { state = set_state new_scheduler_state stopped }, w)
  unfolding toggle is_running is_enabled is_automatically_disabled set_state new_scheduler_state
  toggled_on s w e = rw e refl

  abbrev started_with : ℤ → Scheduler × W → Result (Scheduler × W)
  started_with interval t =
      let c = restore_previous_state rw' t.0 t.1 in
      unless_panic rw' (start_with_interval interval c.0) c.1

  started_with-toggled :
      (interval : ℤ) (m a : Bool) (s : Scheduler) (w : W)
      → s.state ≡ new_scheduler_state
      → started_with interval (toggled m a s w)
        ≡ (if m && a && not (ltb_ℤ (pos 0) interval) then panic else ok (started (toggled m a s w)))
  unfolding toggle start_scheduler start_with_interval restore_previous_state is_running is_enabled
      is_automatically_disabled set_state new_scheduler_state shutdown
  started_with-toggled interval true true s w e = elim (Bool-cases (ltb_ℤ (pos 0) interval)) [
    | inl ticks ↦ rw (e, ticks) refl
    | inr never ↦ rw (e, never) refl
  ]
  started_with-toggled interval true false s w e = rw e refl
  started_with-toggled interval false true s w e = rw e refl
  started_with-toggled interval false false s w e = rw e refl

  -- After the toggles of a scheduler that was just loaded, `Start` panics exactly where both toggles
  -- are on and the interval of the checkpoints is not above 0.
  pub start_up_with_interval-start_up :
      (interval : ℤ) (m a : String) (s : Scheduler) (w : W)
      → s.state ≡ new_scheduler_state
      → start_up_with_interval rw' interval m a s w ≡ (
          if is_on m && is_on a && not (ltb_ℤ (pos 0) interval)
          then panic
          else ok (start_up rw' m a s w))
  unfolding start_up start_up_with_interval toggle_handler
  start_up_with_interval-start_up interval m a s w e =
      started_with-toggled interval (is_on m) (is_on a) s w e
