-- ===== src/Start/Action/Starts.antt =====
-- main.go: the action loads, reads its sources and starts.
use publish_carousel.Prelude.{
  String, ◌≡◌, ◌≢◌, ◌↔◌, refl, ◌∙◌, Bool, true, false, ◌&&◌, not, List, [], ◌∷◌, ◌⊎◌, Option, none,
  inl, inr, Error, Result, ok, panic, Bool-cases, if◌then◌else◌, arith, length, ◌>>=◌,
}
use publish_carousel.Prelude.Int.{pos, ltb_ℤ}
use publish_carousel.Scheduler.Duration.{DurationText}
use publish_carousel.Scheduler.Mode.{is_running, new_scheduler_state}
use publish_carousel.Scheduler.Cycle.{Cycle, stop, start, is_whole_collection}
use publish_carousel.Scheduler.Config.{CycleConfig}
use publish_carousel.Scheduler.LoadFile.Counts.{load_scheduler-cycles}
use publish_carousel.Scheduler.LoadFile.Fresh.{load_scheduler-state}
use publish_carousel.Scheduler.Control.{
  CycleMap, Scheduler, MetadataReadWriter, each_cycle, shutdown, restore_cycles,
  restore_previous_state, start_scheduler,
}
use publish_carousel.Scheduler.Control.Toggle.{Request, automatic, manual, toggle, toggle_handler}
use publish_carousel.Start.{Setup, configure, start_up}
use publish_carousel.Start.Flags.{Options}
use publish_carousel.Start.Toggles.{is_on, start_up-running, start_up_with_interval-start_up}
use publish_carousel.Start.Action.{
  Sources, Outside, Carousel, read_sources, launched, launch, action,
}

length-each_cycle : (f : Cycle → Cycle) (m : CycleMap) → length (each_cycle f m) ≡ length m
unfolding each_cycle
length-each_cycle f [] = refl
length-each_cycle f ((k, c) ∷ m) = omega (arith, length-each_cycle f m)

module _ {W : Type 0} (rw' : MetadataReadWriter W) where
  length-restore_cycles : (m : CycleMap) (w : W) → length (restore_cycles rw' m w).0 ≡ length m
  unfolding restore_cycles
  length-restore_cycles [] w = refl
  length-restore_cycles ((k, c) ∷ m) w =
      let loaded = rw'.load_metadata k w in
      omega (arith, length-restore_cycles m (if is_whole_collection c then loaded.0 else w))

  length-toggle :
      (on : Bool) (r : Request) (s : Scheduler) (w : W)
      → length (toggle rw' on r s w).0.cycles ≡ length s.cycles
  unfolding toggle shutdown
  length-toggle on r s w = ground (arith, length-each_cycle stop s.cycles)

  length-start_scheduler : (s : Scheduler) → length (start_scheduler s).0.cycles ≡ length s.cycles
  unfolding start_scheduler
  length-start_scheduler s = ground (arith, length-each_cycle start s.cycles)

  length-start_up :
      (m a : String) (s : Scheduler) (w : W)
      → length (start_up rw' m a s w).0.cycles ≡ length s.cycles
  unfolding start_up toggle_handler restore_previous_state
  length-start_up m a s w =
      let t = toggle rw' (is_on m) manual s w in
      let u = toggle rw' (is_on a) automatic t.0 t.1 in
      length-start_scheduler (restore_previous_state rw' u.0 u.1).0
      ∙ length-restore_cycles u.0.cycles u.1
      ∙ length-toggle (is_on a) automatic t.0 t.1
      ∙ length-toggle (is_on m) manual s w

module _ {V W B U : Type 0} (out : Outside V B U) (o : Options) (rw' : MetadataReadWriter W)
    (d : DurationText) (digest : String → String)
    (returns : (t : String) → d.parse_duration t ≢ panic) where
  -- What the action comes to: with both toggles on and an interval of the checkpoints that is not above
  -- 0 it panics, and else it goes through.
  abbrev pub ComesTo :
      {W : Type 0} → Setup → Sources U → List CycleConfig → Result (Carousel V W U) → Type 0
  ComesTo {W} setup sources configs r =
      let on = is_on sources.manual_toggle && is_on sources.auto_toggle in
      let never_ticks = not (ltb_ℤ (pos 0) setup.checkpoint_interval) in
      ((on ≡ true) × (never_ticks ≡ true) × (r ≡ panic))
      ⊎ (((on && never_ticks) ≡ false)
          × (k : Carousel V W U) × (r ≡ ok k)
          × (k.setup ≡ setup)
          × (k.sources ≡ sources)
          × ((k.config_error ≡ none) ↔ (length k.scheduler.0.cycles ≡ length configs))
          × (is_running k.scheduler.0.state ≡ on))

  launch-ComesTo :
      (v : V) (w : W) (setup : Setup) (sources : Sources U) (e : Option Error) (s : Scheduler)
      (configs : List CycleConfig)
      → s.state ≡ new_scheduler_state
      → (e ≡ none) ↔ (length s.cycles ≡ length configs)
      → ComesTo setup sources configs (launch out o rw' d digest setup e s w (v, sources))
  launch-ComesTo v w setup sources e s configs fresh counted =
      let m = sources.manual_toggle in
      let a = sources.auto_toggle in
      let up = start_up_with_interval-start_up rw' setup.checkpoint_interval m a s w fresh in
      let n = length-start_up rw' m a s w in
      let ticks = ltb_ℤ (pos 0) setup.checkpoint_interval in
      elim (Bool-cases (is_on m && is_on a && not ticks)) [
        | inl h ↦ inl (ground (arith, h), ground (arith, h), rw (up, h, ◌>>=◌) refl)
        | inr h ↦ inr (
          ground (arith, h),
          launched out o rw' d digest setup e (v, sources) (start_up rw' m a s w),
          rw (up, h, ◌>>=◌) refl,
          refl,
          refl,
          (λ k. n ∙ counted.0 k, λ k. counted.1 (omega (arith, k, n))),
          start_up-running rw' m a s w fresh,
        )
      ]

  -- Where the settings are accepted, the file of cycles has at least one configuration and the sources
  -- can be read. If both toggles, as they were read, are on and the interval of the checkpoints is not
  -- above 0, the action panics. Else it goes through, with those settings and sources, there is no
  -- error of the configuration exactly where the scheduler has a cycle for each of the configurations,
  -- and the scheduler runs exactly where both toggles are on.
  pub action-starts :
      (v v' : V) (w : W) (setup : Setup) (sources : Sources U) (bytes : B) (c : CycleConfig)
      (cs : List CycleConfig)
      → configure out.check_urls
          (out.new_blacklist o.blacklist)
          out.parse_uri
          out.parse_duration
          o.settings
        ≡ ok setup
      → out.read_file o.cycles ≡ inr bytes
      → out.unmarshal bytes ≡ inr (c ∷ cs)
      → read_sources out o v ≡ ok (v', sources)
      → ComesTo setup sources (c ∷ cs) (action out o rw' d digest v w)
  unfolding action
  action-starts v v' w setup sources bytes c cs configured file decoded sourced =
      let (s, e, loaded, counted) =
        load_scheduler-cycles d returns digest out.unmarshal bytes c cs setup.default_throttle
          decoded in
      let fresh =
        load_scheduler-state d digest out.unmarshal (inr bytes) setup.default_throttle (s, e)
          loaded in
      rw (configured, file, loaded, sourced, ◌>>=◌)
        (launch-ComesTo v' w setup sources e s (c ∷ cs) fresh counted)
