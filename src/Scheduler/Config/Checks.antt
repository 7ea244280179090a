-- ===== src/Scheduler/Config/Checks.antt =====
-- scheduler/config.go: what `Validate` accepts.
use publish_carousel.Prelude.{
  String, ◌≡◌, refl, Bool, true, false, some, Error, Result, ok, err, panic, is_blank, refuse_if,
  ◌↔◌, ◌>>◌, concat, lowers_to, text_eq, arith, [], ◌∷◌, Bool-cases, inl, inr, ◌⊎◌,
}
use publish_carousel.Prelude.Int.{ℤ}
use publish_carousel.Scheduler.Duration.{DurationText, or_zero}
use publish_carousel.Scheduler.Cycle.{
  Cycle, new_throttled_whole_collection_cycle, new_scaling_window_cycle,
}
use publish_carousel.Scheduler.Config.{
  CycleConfig, check_duration, check_throttle, check_durations, throttle_interval, validate_type,
  validate, make_cycle, new_cycle,
}

module _ (d : DurationText) where
  -- The type is one of the two known, and the durations that it needs can be read.
  abbrev pub IsTyped : CycleConfig → Type 0
  IsTyped c =
      ((lowers_to c.type "throttledwholecollection" ≡ true)
        × ((text_eq c.throttle "" ≡ true) ⊎ ((i : ℤ) × (d.parse_duration c.throttle ≡ ok i))))
      ⊎ ((lowers_to c.type "throttledwholecollection" ≡ false)
          × (lowers_to c.type "scalingwindow" ≡ true)
          × ((i : ℤ) × (d.parse_duration c.time_window ≡ ok i))
          × ((i : ℤ) × (d.parse_duration c.minimum_throttle ≡ ok i))
          × ((i : ℤ) × (d.parse_duration c.maximum_throttle ≡ ok i)))

  pub record IsAccepted (c : CycleConfig) : Type 0 where
    pub named : is_blank c.name ≡ false
    pub collected : is_blank c.collection ≡ false
    pub originated : is_blank c.origin ≡ false
    pub typed : IsTyped c

  refuse_if-ok :
      (b : Bool) (e : Error) (rest : Result (Unit {0}))
      → (refuse_if b e >> rest) ≡ ok tt
      → (b ≡ false) × (rest ≡ ok tt)
  refuse_if-ok true e rest h = cc h
  refuse_if-ok false e rest h = (refl, h)

  check_duration-ok :
      (name text : String) (r : Result ℤ) (rest : Result (Unit {0}))
      → check_duration d name text r rest ≡ ok tt
      → ((i : ℤ) × (r ≡ ok i)) × (rest ≡ ok tt)
  check_duration-ok name text (ok i) rest h = ((i, refl), h)
  check_duration-ok name text (err e) rest h = cc h
  check_duration-ok name text panic rest h = cc h

  check_throttle_sound :
      (c : CycleConfig)
      → check_throttle d c ≡ ok tt
      → (text_eq c.throttle "" ≡ true) ⊎ ((i : ℤ) × (d.parse_duration c.throttle ≡ ok i))
  unfolding check_durations
  check_throttle_sound c h = elim (Bool-cases (text_eq c.throttle "")) [
    | inl e ↦ inl e
    | inr e ↦ inr (check_duration-ok c.name c.throttle _ (ok tt) (rw e at h)).0
  ]

  windows_sound :
      (c : CycleConfig)
      → check_durations d c.name (c.time_window ∷ c.minimum_throttle ∷ c.maximum_throttle ∷ [])
        ≡ ok tt
      → ((i : ℤ) × (d.parse_duration c.time_window ≡ ok i))
        × ((i : ℤ) × (d.parse_duration c.minimum_throttle ≡ ok i))
        × ((i : ℤ) × (d.parse_duration c.maximum_throttle ≡ ok i))
  unfolding check_durations
  windows_sound c h =
      let (window, h₁) = check_duration-ok c.name c.time_window _ _ h in
      let (low, h₂) = check_duration-ok c.name c.minimum_throttle _ _ h₁ in
      let (high, h₃) = check_duration-ok c.name c.maximum_throttle _ _ h₂ in (window, low, high)

  validate_type_sound : (c : CycleConfig) → validate_type d c ≡ ok tt → IsTyped c
  unfolding validate_type
  validate_type_sound c h = elim (Bool-cases (lowers_to c.type "throttledwholecollection")) [
    | inl e ↦ inl (e, check_throttle_sound c (rw e at h))
    | inr e ↦ elim (Bool-cases (lowers_to c.type "scalingwindow")) [
      | inl e' ↦
          let (window, low, high) = windows_sound c (rw (e, e') at h) in
          inr (e, e', window, low, high)
      | inr e' ↦ absurd (refused (rw (e, e') at h))
    ]
  ]
    where
      refused :
          ◌≡◌ {A = Result (Unit {0})}
            (err (concat ("Please provide a valid type for cycle " ∷ c.name ∷ [])))
            (ok tt)
          → ⊥
      refused e = cc e

  validate_type_complete : (c : CycleConfig) → IsTyped c → validate_type d c ≡ ok tt
  unfolding validate_type check_durations
  validate_type_complete c (inl (e, inl empty)) = rw (e, empty) refl
  validate_type_complete c (inl (e, inr (i, p))) = rw (e, p) (ground arith)
  validate_type_complete c (inr (e, e', (w, pw), (lo, pl), (hi, ph))) = rw (e, e', pw, pl, ph) refl

  validate_sound : (c : CycleConfig) → validate d c ≡ ok tt → IsAccepted c
  unfolding validate check_durations
  validate_sound c h =
      let (named, h₁) = refuse_if-ok (is_blank c.name) _ _ h in
      let (collected, h₂) = refuse_if-ok (is_blank c.collection) _ _ h₁ in
      let (originated, h₃) = refuse_if-ok (is_blank c.origin) _ _ h₂ in
      record {
        named = named;
        collected = collected;
        originated = originated;
        typed = validate_type_sound c h₃;
      }

  validate_complete : (c : CycleConfig) → IsAccepted c → validate d c ≡ ok tt
  unfolding validate check_durations
  validate_complete c a = rw (a.named, a.collected, a.originated) (validate_type_complete c a.typed)

  -- `Validate` lets a configuration pass exactly when its name, collection and origin are not blank
  -- and its type is ThrottledWholeCollection, with no throttle or one that can be read, or
  -- ScalingWindow, with a window and two throttles that can be read.
  pub validate_iff : (c : CycleConfig) → (validate d c ≡ ok tt) ↔ IsAccepted c
  validate_iff c = (validate_sound c, validate_complete c)

  -- `Validate` does not look at the cool-down: whatever text it is, the answer is the same.
  validate-cool_down :
      (c : CycleConfig) (text : String) → validate d (record c { cool_down = text }) ≡ validate d c
  unfolding validate check_durations validate_type
  validate-cool_down c text = refl

  make_cycle-some :
      (digest : String → String) (default_throttle : ℤ) (c : CycleConfig)
      → IsTyped c
      → (x : Cycle) × (make_cycle d digest default_throttle c ≡ some x)
  unfolding make_cycle
  make_cycle-some digest default_throttle c (inl (e, r)) = (
    new_throttled_whole_collection_cycle digest d c.name c.collection c.origin
        (or_zero (d.parse_duration c.cool_down)) (throttle_interval d default_throttle c),
    rw e refl,
  )
  make_cycle-some digest default_throttle c (inr (e, e', w, lo, hi)) = (
    new_scaling_window_cycle digest d c.name c.collection c.origin
        (or_zero (d.parse_duration c.time_window)) (or_zero (d.parse_duration c.cool_down))
        (or_zero (d.parse_duration c.minimum_throttle))
        (or_zero (d.parse_duration c.maximum_throttle)),
    rw (e, e') refl,
  )

  -- A configuration that `Validate` lets pass gives a cycle, never nil, and no error.
  pub new_cycle-some :
      (digest : String → String) (default_throttle : ℤ) (c : CycleConfig)
      → validate d c ≡ ok tt
      → (x : Cycle) × (new_cycle d digest default_throttle c ≡ ok (some x))
  unfolding new_cycle
  new_cycle-some digest default_throttle c h =
      let (x, e) = make_cycle-some digest default_throttle c (validate_sound c h).typed in
      (x, rw (h, e) refl)
