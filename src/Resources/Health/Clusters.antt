-- ===== src/Resources/Health/Clusters.antt =====
-- resources/healthchecks.go: what the health of the services does to the scheduler.
use mathlib.Core.List.{Perm, Permᴰ, append_assoc, append-nil}
use mathlib.Core.List.Perm
use mathlib.Core.List.Permᴰ
use mathlib.Core.Logic.{∥∥₁_map}
use publish_carousel.Prelude.{
  ◌<◌, String, ◌≡◌, refl, sym, ap, subst, ◌∙◌, inl, inr, Bool, true, false, not, ◌&&◌, ◌||◌, List,
  [], ◌∷◌, ◌++◌, map, Option, none, some, Error, if◌then◌else◌, text_eq, arith, length, length-map,
  word_mod, All, Bool-cases, is_nil, is_none,
}
use publish_carousel.Scheduler.Mode.{is_enabled, is_running, was_automatically_disabled, set_state}
use publish_carousel.Scheduler.Control.{Scheduler, MetadataReadWriter, shutdown, start_scheduler}
use publish_carousel.Scheduler.Control.Life.{IsWell}
use publish_carousel.Resources.Health.{unhealthy_clusters}
use publish_carousel.Resources.Health.Channel.{
  CheckResult, check_result, Collector, new_collector, collect, Exchange, new_exchange, Move, moved,
  play, is_finished,
}
use publish_carousel.Resources.Health.Channel.Fair.{collect_all}
use publish_carousel.Resources.Health.Channel.Collected.{play-received}

-- The names of the services whose check failed.
abbrev names : List CheckResult → List String
names [] = []
names (r ∷ rs) = if text_eq r.service_name "" then names rs else r.service_name ∷ names rs

names-cons :
    (r : CheckResult) (l₁ l₂ : List CheckResult)
    → Permᴰ (names l₁) (names l₂)
    → Permᴰ (names (r ∷ l₁)) (names (r ∷ l₂))
names-cons r l₁ l₂ d = elim (Bool-cases (text_eq r.service_name "")) [
  | inl e ↦ rw e d
  | inr e ↦ rw e (Permᴰ.cons refl d)
]

names-swap :
    (r q : CheckResult) (l : List CheckResult) → Permᴰ (names (r ∷ q ∷ l)) (names (q ∷ r ∷ l))
names-swap r q l = elim (Bool-cases (text_eq r.service_name "")) [
  | inl e ↦ rw e (Permᴰ.refl (names (q ∷ l)))
  | inr e ↦ elim (Bool-cases (text_eq q.service_name "")) [
    | inl f ↦ rw (e, f) (Permᴰ.refl (r.service_name ∷ names l))
    | inr f ↦ rw (e, f) (Permᴰ.swap refl refl)
  ]
]

names-permᴰ : {l₁ l₂ : List CheckResult} → Permᴰ l₁ l₂ → Permᴰ (names l₁) (names l₂)
names-permᴰ Permᴰ.nil = Permᴰ.nil
names-permᴰ (Permᴰ.cons {a} {b} {l₁} {l₂} e d) =
    subst (λ x. Permᴰ (names (a ∷ l₁)) (names (x ∷ l₂))) e (names-cons a l₁ l₂ (names-permᴰ d))
names-permᴰ (Permᴰ.swap {a} {b} {a'} {b'} {l} e f) =
    subst (λ x. Permᴰ (names (a ∷ b ∷ l)) (names (x ∷ b' ∷ l))) f
      (subst (λ y. Permᴰ (names (a ∷ b ∷ l)) (names (b ∷ y ∷ l))) e (names-swap a b l))
names-permᴰ (Permᴰ.trans d₁ d₂) = Permᴰ.trans (names-permᴰ d₁) (names-permᴰ d₂)

names-perm : {l₁ l₂ : List CheckResult} → Perm l₁ l₂ → Perm (names l₁) (names l₂)
names-perm {l₁} {l₂} p = ∥∥₁_map {B = Permᴰ (names l₁) (names l₂)} p names-permᴰ

collect_all-names :
    (rs : List CheckResult) (c : Collector)
    → (collect_all rs c).unhealthy_services ≡ c.unhealthy_services ++ names rs
unfolding collect
collect_all-names [] c = sym (append-nil c.unhealthy_services)
collect_all-names (r ∷ rs) c =
    collect_all-names rs (collect r c) ∙ elim (Bool-cases (text_eq r.service_name "")) [
      | inl e ↦ rw e refl
      | inr e ↦ rw e (append_assoc c.unhealthy_services (r.service_name ∷ []) (names rs))
    ]

-- A service: its name, and what its `Check` answers.
abbrev pub Service : Type 0
Service = String × Option Error

abbrev pub send_of : Service → CheckResult
send_of (name, e) = check_result name e

abbrev pub all_healthy : List Service → Bool
all_healthy [] = true
all_healthy ((name, e) ∷ services) = is_none e && all_healthy services

abbrev pub IsNamed : List Service → Type 0
IsNamed services = All (λ (service : Service). text_eq service.0 "" ≡ false) services

names-all_healthy :
    (services : List Service)
    → IsNamed services
    → is_nil (names (map send_of services)) ≡ all_healthy services
unfolding check_result
names-all_healthy [] h = refl
names-all_healthy ((name, none) ∷ services) (n, h) = names-all_healthy services h
names-all_healthy ((name, some e) ∷ services) (n, h) = rw n refl

is_nil-perm {ℓ} : {A : Type ℓ} (l₁ l₂ : List A) → Perm l₁ l₂ → is_nil l₁ ≡ is_nil l₂
is_nil-perm [] [] p = refl
is_nil-perm [] (y ∷ l₂) p = let e : y ∷ l₂ ≡ [] = Perm.eq-nil (Perm.symm p) in cc e
is_nil-perm (x ∷ l₁) [] p = let e : x ∷ l₁ ≡ [] = Perm.eq-nil p in cc e
is_nil-perm (x ∷ l₁) (y ∷ l₂) p = refl

-- What the receiver has, once it is done.
play-all_healthy :
    (services : List Service) (ms : List Move) (e : Exchange)
    → 0 < length services
    → length services < word_mod
    → IsNamed services
    → play (length services) ms (new_exchange (map send_of services)) ≡ moved e
    → is_finished e ≡ true
    → is_nil e.collector.unhealthy_services ≡ all_healthy services
play-all_healthy services ms e more few named h done =
    let results = map send_of services in
    let (received, p, c) =
      play-received results (rw (length-map send_of services) more)
        (rw (length-map send_of services) few) ms e (rw (length-map send_of services) h) done in
    ap (λ (k : Collector). is_nil k.unhealthy_services) c
    ∙ ap is_nil (collect_all-names received new_collector)
    ∙ is_nil-perm (names received) (names results) (names-perm p)
    ∙ names-all_healthy services named

module _ {W : Type 0} (to_json : List String → String) (rw' : MetadataReadWriter W) where
  unhealthy_clusters-is_nil :
      (c : Collector) (s : Scheduler) (w : W)
      → IsWell s
      → let (s', w', checked) = unhealthy_clusters to_json rw' c s w in
        (is_running s'.state ≡ (
          is_nil c.unhealthy_services
          && (is_running s.state
              || (is_enabled s.state && not (was_automatically_disabled s.state)))))
        × (is_none checked.1 ≡ is_nil c.unhealthy_services)
  unfolding unhealthy_clusters shutdown start_scheduler is_running is_enabled set_state
  unhealthy_clusters-is_nil c s w v = ground arith

  -- For at least one service, each with a name: in whatever order the goroutines move, once the
  -- receiving loop is over, the scheduler runs afterwards exactly where all services are healthy and
  -- it ran already, or is enabled and was not disabled by a failover; and the check gives an error
  -- exactly where a service is not healthy.
  pub unhealthy_clusters-all_healthy :
      (services : List Service) (ms : List Move) (e : Exchange) (s : Scheduler) (w : W)
      → 0 < length services
      → length services < word_mod
      → IsNamed services
      → play (length services) ms (new_exchange (map send_of services)) ≡ moved e
      → is_finished e ≡ true
      → IsWell s
      → let (s', w', checked) = unhealthy_clusters to_json rw' e.collector s w in
        (is_running s'.state ≡ (
          all_healthy services
          && (is_running s.state
              || (is_enabled s.state && not (was_automatically_disabled s.state)))))
        × (is_none checked.1 ≡ all_healthy services)
  unhealthy_clusters-all_healthy services ms e s w more few named h done v =
      let q = play-all_healthy services ms e more few named h done in
      rw (← q) (unhealthy_clusters-is_nil e.collector s w v)
