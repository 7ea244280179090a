-- ===== src/Start/Watching/Settled.antt =====
-- main.go: the first ticks hand the toggles on once more, and files that stay as they were at the
-- start of the program change nothing.
use publish_carousel.Prelude.{
  String, ◌≡◌, refl, sym, ap, subst, ◌∙◌, Bool, true, false, List, [], ◌∷◌, ◌⊎◌, inl, inr, Error,
  text_eq, keep, map, All, Bool-cases,
}
use publish_carousel.Scheduler.Duration.{DurationText}
use publish_carousel.Scheduler.Mode.{
  Mode, running, disabled, auto_disabled, new_scheduler_state, set_state, is_enabled, is_running,
  is_automatically_disabled,
}
use publish_carousel.Scheduler.Control.{
  Scheduler, MetadataReadWriter, shutdown, restore_previous_state, start_scheduler,
}
use publish_carousel.Scheduler.Control.Toggle.{Request, automatic, manual, toggle, toggle_handler}
use publish_carousel.Start.{start_up}
use publish_carousel.Start.Toggles.{is_on}
use publish_carousel.Start.Serve.{
  Event, reads, creates, deletes, sets_throttle, resumes, stops, resets, starts, shuts_down, checks,
  toggles, signals, serve,
}
use publish_carousel.Watcher.{Files, Watching}
use publish_carousel.Watcher.Changes.{changes}
use publish_carousel.Start.Watching.{Program, Goroutine, ticks, run_program}
use publish_carousel.Start.Watching.Follows.{is_other, toggled, served, IsRequest, current}
use publish_carousel.Start.Watching.Served.{readings, run_program-serve}

-- The mode after the start of the program, by its manual and its automatic toggle.
pub start_mode : Bool → Bool → Mode
start_mode true true = running
start_mode true false = auto_disabled
start_mode false a = disabled

-- The toggle that a request reads at the start.
abbrev pub chosen {ℓ} : {A : Type ℓ} → Request → A → A → A
chosen manual m a = m
chosen automatic m a = a

module _ {W : Type 0} (rw' : MetadataReadWriter W) where
  abbrev started_with : Bool → Bool → Scheduler → W → Scheduler × W
  started_with m a s w =
      let t = toggle rw' m manual s w in
      let u = toggle rw' a automatic t.0 t.1 in
      let c = restore_previous_state rw' u.0 u.1 in ((start_scheduler c.0).0, c.1)

  started-mode :
      (m a : Bool) (s : Scheduler) (w : W)
      → s.state ≡ new_scheduler_state
      → (started_with m a s w).0.state.current_state ≡ start_mode m a
  unfolding toggle start_scheduler restore_previous_state is_running is_enabled
      is_automatically_disabled set_state new_scheduler_state shutdown start_mode
  started-mode true true s w e = rw e refl
  started-mode true false s w e = rw e refl
  started-mode false true s w e = rw e refl
  started-mode false false s w e = rw e refl

  pub start_up-start_mode :
      (manual_toggle auto_toggle : String) (s : Scheduler) (w : W)
      → s.state ≡ new_scheduler_state
      → (start_up rw' manual_toggle auto_toggle s w).0.state.current_state
        ≡ start_mode (is_on manual_toggle) (is_on auto_toggle)
  unfolding start_up toggle_handler
  start_up-start_mode manual_toggle auto_toggle s w e =
      started-mode (is_on manual_toggle) (is_on auto_toggle) s w e

  -- A toggle that is given once more.
  toggle_again :
      (r : Request) (m a : Bool) (s : Scheduler) (w : W)
      → s.state.current_state ≡ start_mode m a
      → toggle rw' (chosen r m a) r s w ≡ (s, w)
  unfolding toggle is_running is_enabled is_automatically_disabled start_mode
  toggle_again manual true true s w e = rw e refl
  toggle_again manual true false s w e = rw e refl
  toggle_again manual false a s w e = rw e refl
  toggle_again automatic true true s w e = rw e refl
  toggle_again automatic true false s w e = rw e refl
  toggle_again automatic false true s w e = rw e refl
  toggle_again automatic false false s w e = rw e refl

  pub toggle_handler_again :
      (r : Request) (value m a : String) (s : Scheduler) (w : W)
      → value ≡ chosen r m a
      → s.state.current_state ≡ start_mode (is_on m) (is_on a)
      → toggle_handler rw' value r s w ≡ (s, w)
  unfolding toggle_handler
  toggle_handler_again manual value m a s w same e =
      ap (λ v. toggle rw' (is_on v) manual s w) same ∙ toggle_again manual (is_on m) (is_on a) s w e
  toggle_handler_again automatic value m a s w same e =
      ap (λ v. toggle rw' (is_on v) automatic s w) same
      ∙ toggle_again automatic (is_on m) (is_on a) s w e

-- A reading that fails, or that gives a text.
abbrev pub Says : String → Error ⊎ String → Type 0
Says m (inl e) = Unit
Says m (inr value) = value ≡ m

changes-All :
    (m c : String) (rs : List (Error ⊎ String)) → All (Says m) rs → All (λ v. v ≡ m) (changes c rs)
changes-All m c [] h = tt
changes-All m c (inl e ∷ rs) (_, h) = changes-All m c rs h
changes-All m c (inr value ∷ rs) (e, h) = elim (Bool-cases (text_eq value c)) [
  | inl old ↦ rw old (changes-All m c rs h)
  | inr new ↦ rw new (e, changes-All m value rs h)
]

module _ {W : Type 0} (rw' : MetadataReadWriter W) (d : DurationText) (digest : String → String)
    (to_json : List String → String) (m a : String) where
  serve_again :
      (es : List Event) (s : Scheduler) (w : W)
      → s.state.current_state ≡ start_mode (is_on m) (is_on a)
      → keep is_other es ≡ []
      → ((r : Request) → All (λ v. v ≡ chosen r m a) (toggled r es))
      → serve rw' d digest to_json es (s, w) ≡ (s, w)
  unfolding serve
  serve_again [] s w e none_served h = refl
  serve_again (toggles value manual ∷ es) s w e none_served h =
      ap (serve rw' d digest to_json es)
        (toggle_handler_again rw' manual value m a s w (h manual).0 e)
      ∙ serve_again es s w e none_served (λ r.
        elim r as (λ q. All (λ v. v ≡ chosen q m a) (toggled q es)) [
          | manual ↦ (h manual).1
          | automatic ↦ h automatic
        ])
  serve_again (toggles value automatic ∷ es) s w e none_served h =
      ap (serve rw' d digest to_json es)
        (toggle_handler_again rw' automatic value m a s w (h automatic).0 e)
      ∙ serve_again es s w e none_served (λ r.
        elim r as (λ q. All (λ v. v ≡ chosen q m a) (toggled q es)) [
          | manual ↦ h manual
          | automatic ↦ (h automatic).1
        ])
  serve_again (reads ∷ es) s w e k h = cc k
  serve_again (creates body ∷ es) s w e k h = cc k
  serve_again (deletes id ∷ es) s w e k h = cc k
  serve_again (sets_throttle url id body ∷ es) s w e k h = cc k
  serve_again (resumes id ∷ es) s w e k h = cc k
  serve_again (stops id ∷ es) s w e k h = cc k
  serve_again (resets id ∷ es) s w e k h = cc k
  serve_again (starts ∷ es) s w e k h = cc k
  serve_again (shuts_down ∷ es) s w e k h = cc k
  serve_again (checks c ∷ es) s w e k h = cc k
  serve_again (signals ∷ es) s w e k h = cc k

map_ticks-served :
    (gs : List Goroutine) → (served (map ticks gs) ≡ []) × All IsRequest (map ticks gs)
map_ticks-served [] = (refl, tt)
map_ticks-served (g ∷ gs) = let (k, h) = map_ticks-served gs in (k, (tt, h))

module _ {V W U : Type 0} (files : Files V) (paths : List (String × String))
    (parse_url : String → Error ⊎ U) (rw' : MetadataReadWriter W) (d : DurationText)
    (digest : String → String) (to_json : List String → String) where
  -- A program is started, with a scheduler that was just loaded, by the texts of its two toggles. Its
  -- goroutines then tick, in any order and number. As long as each reading of a toggle's file fails or
  -- gives the text of the start, the scheduler and its store stay as the start left them, also where
  -- the watcher takes the first reading for a change.
  pub run_program-start_up :
      (m a : String) (s : Scheduler) (w : W) (gs : List Goroutine) (p : Watching (Program V W U))
      → s.state ≡ new_scheduler_state
      → p.world.scheduler ≡ start_up rw' m a s w
      → ((r : Request)
          → All
              (Says (chosen r m a))
              (readings files paths parse_url rw' d digest to_json r (map ticks gs) p))
      → (run_program files paths parse_url rw' d digest to_json (map ticks gs) p).world.scheduler
        ≡ start_up rw' m a s w
  run_program-start_up m a s w gs p fresh begun unchanged =
      let (quiet, plain) = map_ticks-served gs in
      let (es, led, kept, values) =
        run_program-serve files paths parse_url rw' d digest to_json (map ticks gs) p plain in
      let u = start_up rw' m a s w in
      led
      ∙ ap (serve rw' d digest to_json es) begun
      ∙ serve_again rw' d digest to_json m a es u.0 u.1 (start_up-start_mode rw' m a s w fresh)
          (kept ∙ quiet)
          (λ r.
            subst (All (λ v. v ≡ chosen r m a)) (sym (values r))
              (changes-All (chosen r m a) (current files paths r p) _ (unchanged r)))
