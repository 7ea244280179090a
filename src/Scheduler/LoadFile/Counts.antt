-- ===== src/Scheduler/LoadFile/Counts.antt =====
-- scheduler/config.go: `LoadSchedulerFromFile` accounts for each configured cycle.
use publish_carousel.Prelude.{
  ◌⊎◌, inl, inr, ◌≡◌, refl, ◌≢◌, ◌↔◌, ℕ, suc, ◌+◌, String, Bool, true, false, List, [], ◌∷◌, Option,
  none, some, Error, Result, ok, err, panic, arith, length, length-append, is_blank, refuse_if,
  ◌>>◌,
}
use publish_carousel.Prelude.Int.{ℤ}
use publish_carousel.Scheduler.Duration.{DurationText}
use publish_carousel.Scheduler.Cycle.{Cycle}
use publish_carousel.Scheduler.Config.{
  CycleConfig, check_durations, check_throttle, validate_type, validate, new_cycle,
  combine_config_errors,
}
use publish_carousel.Scheduler.Config.Checks.{new_cycle-some}
use publish_carousel.Scheduler.Control.{Scheduler, new_scheduler, add_at, add_cycle}
use publish_carousel.Scheduler.LoadFile.{
  after_add, load_one, load_cycles, load_setup, load_scheduler,
}

-- The cycles and the errors so far.
abbrev pub count : Scheduler × List Error → ℕ
count (s, errs) = length s.cycles + length errs

after_add-count :
    (x : Cycle) (s : Scheduler) (errs : List Error) (o : Option Cycle)
    → count (after_add errs (add_at x s o)) ≡ suc (count (s, errs))
after_add-count x s errs none = omega arith
after_add-count x s errs (some old) = omega (arith, length-append errs (_ ∷ []))

combine_config_errors-none :
    (errs : List Error) (m k : ℕ)
    → m + length errs ≡ k
    → (combine_config_errors errs ≡ none) ↔ (m ≡ k)
unfolding combine_config_errors
combine_config_errors-none [] m k h = (λ e. omega (arith, h), λ e. refl)
combine_config_errors-none (e ∷ es) m k h = (λ n. cc n, λ n. absurd (omega (arith, h, n)))

refuse_if-ne-panic :
    (b : Bool) (e : Error) (r : Result (Unit {0})) → r ≢ panic → (refuse_if b e >> r) ≢ panic
refuse_if-ne-panic true e r n h = cc h
refuse_if-ne-panic false e r n h = n h

module _ (d : DurationText) (h : (t : String) → d.parse_duration t ≢ panic) where
  check_durations-ne-panic : (name : String) (ds : List String) → check_durations d name ds ≢ panic
  unfolding check_durations
  check_durations-ne-panic name [] e = cc e
  check_durations-ne-panic name (x ∷ ds) e =
      ground (arith, e, h x, check_durations-ne-panic name ds)

  check_throttle-ne-panic : (c : CycleConfig) → check_throttle d c ≢ panic
  check_throttle-ne-panic c e = ground (arith, e, check_durations-ne-panic c.name (c.throttle ∷ []))

  validate_type-ne-panic : (c : CycleConfig) → validate_type d c ≢ panic
  unfolding validate_type
  validate_type-ne-panic c e = ground (
    arith,
    e,
    check_throttle-ne-panic c,
    check_durations-ne-panic c.name (c.time_window ∷ c.minimum_throttle ∷ c.maximum_throttle ∷ []),
  )

  validate-ne-panic : (c : CycleConfig) → validate d c ≢ panic
  unfolding validate check_durations
  validate-ne-panic c = refuse_if-ne-panic (is_blank c.name) _ _ (
      refuse_if-ne-panic (is_blank c.collection) _ _
        (refuse_if-ne-panic (is_blank c.origin) _ _ (validate_type-ne-panic c)))

  -- `NewCycle` gives a cycle or an error.
  new_cycle-cases :
      (digest : String → String) (default_throttle : ℤ) (c : CycleConfig)
      → ((x : Cycle) × (new_cycle d digest default_throttle c ≡ ok (some x)))
        ⊎ ((e : Error) × (new_cycle d digest default_throttle c ≡ err e))
  unfolding new_cycle
  new_cycle-cases digest default_throttle c = by_validate (validate d c) refl
    where
      by_validate :
          (r : Result (Unit {0}))
          → validate d c ≡ r
          → ((x : Cycle) × (new_cycle d digest default_throttle c ≡ ok (some x)))
            ⊎ ((e : Error) × (new_cycle d digest default_throttle c ≡ err e))
      by_validate (ok tt) v = inl (new_cycle-some d digest default_throttle c v)
      by_validate (err e) v = inr (e, rw v refl)
      by_validate panic v = absurd (validate-ne-panic c v)

  module _ (digest : String → String) where
    abbrev One : Scheduler → List Error → Result (Scheduler × List Error) → Type 0
    One s errs r = (a : Scheduler × List Error) × (r ≡ ok a) × (count a ≡ suc (count (s, errs)))

    load_one-count :
        (c : CycleConfig) (s : Scheduler) (errs : List Error)
        → One s errs (load_one d digest s errs (new_cycle d digest s.default_throttle c))
    unfolding add_cycle
    load_one-count c s errs = elim (new_cycle-cases digest s.default_throttle c) [
      | inl (x, made) ↦ rw (made, load_one) (_, refl, after_add-count x s errs _)
      | inr (e, refused) ↦
          rw (refused, load_one) (_, refl, omega (arith, length-append errs (e ∷ [])))
    ]

    load_cycles-count :
        (cs : List CycleConfig) (a : Scheduler × List Error)
        → (b : Scheduler × List Error) × (load_cycles d digest cs a ≡ ok b)
          × (count b ≡ count a + length cs)
    unfolding load_cycles
    load_cycles-count [] a = (a, refl, omega arith)
    load_cycles-count (c ∷ cs) (s, errs) =
        let (a, one, n) = load_one-count c s errs in
        let (b, rest, k) = load_cycles-count cs a in
        rw (one, load_cycles) (b, rest, omega (arith, n, k))

    -- Of a file that gives at least one configuration, where reading a duration never panics, the
    -- loading returns a scheduler, and with no error exactly where each configuration became a
    -- cycle of its own.
    pub load_scheduler-cycles :
        {B : Type 0} (unmarshal : B → Error ⊎ List CycleConfig) (bytes : B) (c : CycleConfig)
        (cs : List CycleConfig) (default_throttle : ℤ)
        → unmarshal bytes ≡ inr (c ∷ cs)
        → (s : Scheduler) × (e : Option Error) × (load_scheduler d digest unmarshal
              (inr bytes)
              default_throttle
            ≡ ok (s, e))
          × ((e ≡ none) ↔ (length s.cycles ≡ length (c ∷ cs)))
    unfolding load_scheduler new_scheduler
    load_scheduler-cycles unmarshal bytes c cs default_throttle setup =
        let ((s, errs), loaded, n) =
          load_cycles-count (c ∷ cs) (new_scheduler default_throttle, []) in
        rw (setup, load_setup, loaded)
          (
            s,
            combine_config_errors errs,
            refl,
            combine_config_errors-none errs (length s.cycles) (length (c ∷ cs)) (omega (arith, n)),
          )
