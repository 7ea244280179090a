-- ===== src/Scheduler/Control/Abstract/Sound.antt =====
-- scheduler/scheduler.go: every call keeps each cycle under its own ID, and no ID twice.
use publish_carousel.Prelude.{
  subst, ltb, String, ◌≡◌, refl, sym, Bool, true, false, not, ◌&&◌, Option, none, some, Result, ok,
  err, panic, inl, inr, if◌then◌else◌, Bool-cases,
}
use publish_carousel.Scheduler.Mode.{is_enabled, is_running}
use publish_carousel.Scheduler.Cycle.{Cycle, start, stop}
use publish_carousel.Scheduler.Control.{
  CycleMap, Scheduler, MetadataReadWriter, lookup_cycle, add_cycle, add_at, delete_cycle, delete_at,
  each_cycle, shutdown, start_scheduler, restore_previous_state,
}
use publish_carousel.Scheduler.Control.Toggle.{
  Request, may_enable, disable_after, toggle, toggle_handler, parse_bool, or_false,
}
use publish_carousel.Scheduler.Control.Keys.{IsKeyed, each_cycle-IsKeyed}
use publish_carousel.Scheduler.Control.Life.{
  IsWell, Call, adds, deletes, starts, shuts_down, restores, toggles, step,
}
use publish_carousel.Scheduler.Control.Saved.{IsDistinct, each_cycle-IsDistinct, stop_id}
use publish_carousel.Scheduler.Control.Stored.{
  delete_key-IsKeyed, delete_key-IsDistinct, restore_cycles-IsKeyed, restore_cycles-IsDistinct,
}

-- Each cycle stands under its own ID, and no ID stands twice.
abbrev pub IsTidy : CycleMap → Type 0
IsTidy m = IsKeyed m × IsDistinct m

-- What the calls keep besides: the scheduler is well, each cycle stands under its own ID, and no ID
-- stands twice.
pub record IsSound (s : Scheduler) : Type 0 where
  pub well : IsWell s
  pub keyed : IsKeyed s.cycles
  pub distinct : IsDistinct s.cycles

launched_id : (b : Bool) (c : Cycle) → c.cycle_id ≡ (if b then start c else c).cycle_id
unfolding start
launched_id true c = refl
launched_id false c = refl

start_id : (c : Cycle) → (start c).cycle_id ≡ c.cycle_id
unfolding start
start_id c = refl

each_cycle-IsTidy :
    (f : Cycle → Cycle) (m : CycleMap)
    → ((c : Cycle) → (f c).cycle_id ≡ c.cycle_id)
    → IsTidy m
    → IsTidy (each_cycle f m)
each_cycle-IsTidy f m same (k, d) = (each_cycle-IsKeyed f m same k, each_cycle-IsDistinct f m d)

pub add_at-IsTidy :
    (c : Cycle) (s : Scheduler) (o : Option Cycle)
    → lookup_cycle c.cycle_id s.cycles ≡ o
    → IsTidy s.cycles
    → IsTidy (add_at c s o).0.cycles
add_at-IsTidy c s (some old) h t = t
add_at-IsTidy c s none h (k, d) =
    ((launched_id (is_enabled s.state && is_running s.state) c, k), (h, d))

pub delete_at-IsTidy :
    (id : String) (s : Scheduler) (o : Option Cycle)
    → IsTidy s.cycles
    → IsTidy (delete_at id s o).0.cycles
delete_at-IsTidy id s none t = t
delete_at-IsTidy id s (some c) (k, d) =
    (delete_key-IsKeyed id s.cycles k, delete_key-IsDistinct id s.cycles d)

pub start_scheduler-IsTidy : (s : Scheduler) → IsTidy s.cycles → IsTidy (start_scheduler s).0.cycles
unfolding start_scheduler
start_scheduler-IsTidy s t = elim (Bool-cases (is_enabled s.state)) [
  | inl on ↦ elim (Bool-cases (is_running s.state)) [
    | inl runs ↦ rw (on, runs) t
    | inr idle ↦ rw (on, idle) (each_cycle-IsTidy start s.cycles start_id t)
  ]
  | inr off ↦ rw off t
]

module _ {W : Type 0} (rw' : MetadataReadWriter W) where
  pub shutdown-IsTidy :
      (s : Scheduler) (w : W) → IsTidy s.cycles → IsTidy (shutdown rw' s w).0.cycles
  unfolding shutdown
  shutdown-IsTidy s w t = elim (Bool-cases (is_running s.state)) [
    | inl runs ↦ elim (Bool-cases (ltb 0 s.checkpoints)) [
      | inl e ↦ rw (runs, e) (each_cycle-IsTidy stop s.cycles stop_id t)
      | inr e ↦ rw (runs, e) (each_cycle-IsTidy stop s.cycles stop_id t)
    ]
    | inr idle ↦ rw idle t
  ]

  disable_after-cycles :
      (r : Request) (x : Scheduler × W × Result (Unit {0}))
      → (disable_after rw' r x).0.cycles ≡ x.0.cycles
  disable_after-cycles r (s, w, ok _) = refl
  disable_after-cycles r (s, w, err e) = refl
  disable_after-cycles r (s, w, panic) = refl

  pub toggle-IsTidy :
      (on : Bool) (r : Request) (s : Scheduler) (w : W)
      → IsTidy s.cycles
      → IsTidy (toggle rw' on r s w).0.cycles
  unfolding toggle
  toggle-IsTidy true r s w t = elim (Bool-cases (not (is_running s.state) && may_enable r s)) [
    | inl e ↦ rw e t
    | inr e ↦ rw e t
  ]
  toggle-IsTidy false r s w t = elim (Bool-cases (is_enabled s.state)) [
    | inl on ↦ elim (Bool-cases (is_running s.state)) [
      | inl runs ↦
          rw (on, runs)
            (subst IsTidy (sym (disable_after-cycles r (shutdown rw' s w))) (shutdown-IsTidy s w t))
      | inr idle ↦ rw (on, idle) t
    ]
    | inr off ↦ rw off t
  ]

  pub step-IsTidy :
      (c : Call) (s : Scheduler) (w : W) → IsTidy s.cycles → IsTidy (step rw' c (s, w)).0.cycles
  unfolding step add_cycle delete_cycle toggle_handler restore_previous_state
  step-IsTidy (adds c) s w t = add_at-IsTidy c s (lookup_cycle c.cycle_id s.cycles) refl t
  step-IsTidy (deletes id) s w t = delete_at-IsTidy id s (lookup_cycle id s.cycles) t
  step-IsTidy starts s w t = start_scheduler-IsTidy s t
  step-IsTidy shuts_down s w t = shutdown-IsTidy s w t
  step-IsTidy restores s w (k, d) =
      (restore_cycles-IsKeyed rw' s.cycles w k, restore_cycles-IsDistinct rw' s.cycles w d)
  step-IsTidy (toggles value r) s w t = toggle-IsTidy (or_false (parse_bool value)) r s w t
