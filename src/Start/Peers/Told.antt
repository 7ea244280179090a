-- ===== src/Start/Peers/Told.antt =====
-- main.go: the values that etcd gives for each key, and what the program makes of them.
use publish_carousel.Prelude.{
  ℕ, zero, suc, String, ◌≡◌, refl, ap, ◌∙◌, Bool, true, false, List, [], ◌∷◌, ◌++◌, Option, none,
  ◌⊎◌, inl, inr, Error, if◌then◌else◌, text_eq, eq_iff, arith, keep, All, Bool-cases,
}
use publish_carousel.Scheduler.Duration.{DurationText}
use publish_carousel.Scheduler.Control.{MetadataReadWriter}
use publish_carousel.Scheduler.Control.Toggle.{Request, automatic, manual}
use publish_carousel.Start.Flags.{Options}
use publish_carousel.Start.Serve.{Event, serve}
use publish_carousel.Start.Watching.Follows.{is_toggle, is_other, toggled, no_toggle_values}
use publish_carousel.Start.Watching.Served.{keep-append, toggled-append}
use publish_carousel.Start.Peers.{
  EtcdProgram, EtcdGoroutine, follows_toggle, follows_read_urls, key_of, EtcdActivity, rounds,
  serves_event, run_etcd,
}
use publish_carousel.Start.Peers.Heard.{
  rested, as_events, client_after, values_by, events_by, events_heard, urls_heard, latest,
  run_etcd-heard,
}
use publish_carousel.Watcher.Etcd.{Keys, value_of, values}

-- The first answers of a sequence.
abbrev pub first {ℓ} : {A : Type ℓ} → ℕ → (ℕ → A) → List A
first zero f = []
first (suc n) f = f 0 ∷ first n (λ i. f (suc i))

first_same {ℓ} : {A : Type ℓ} (n : ℕ) (f g : ℕ → A) → ((i : ℕ) → f i ≡ g i) → first n f ≡ first n g
first_same zero f g h = refl
first_same (suc n) f g h =
    ap (λ x. x ∷ first n (λ i. f (suc i))) (h 0)
    ∙ ap (◌∷◌ (g 0)) (first_same n (λ i. f (suc i)) (λ i. g (suc i)) (λ i. h (suc i)))

abbrev pub same_goroutine : EtcdGoroutine → EtcdGoroutine → Bool
same_goroutine (follows_toggle manual) (follows_toggle manual) = true
same_goroutine (follows_toggle automatic) (follows_toggle automatic) = true
same_goroutine follows_read_urls follows_read_urls = true
same_goroutine _ _ = false

-- How many rounds a goroutine makes, and the requests that are served.
abbrev pub rounds_of : EtcdGoroutine → List EtcdActivity → ℕ
rounds_of h [] = 0
rounds_of h (rounds g ∷ more) = let n = rounds_of h more in if same_goroutine g h then suc n else n
rounds_of h (serves_event e ∷ more) = rounds_of h more

abbrev pub requests : List EtcdActivity → List Event
requests [] = []
requests (rounds g ∷ more) = requests more
requests (serves_event e ∷ more) = e ∷ requests more

abbrev pub IsPlain : EtcdActivity → Type 0
IsPlain (serves_event e) = is_toggle e ≡ false
IsPlain (rounds g) = Unit

module _ {V : Type 0} (keys : Keys V) where
  -- The answers that `Next` gives for each key from here on: one is used up by a call of `Next` for
  -- its key, and by nothing else. The context is never done.
  pub record IsAnswering (answers : String → V → ℕ → Error ⊎ Option String) : Type 0 where
    pub live : (v : V) → keys.ctx_err v ≡ none
    pub answer : (k : String) (v : V) → (keys.next k v).1 ≡ answers k v 0
    pub used :
        (j k : String) (v : V) (n : ℕ)
        → answers j (keys.next k v).0 n
          ≡ (if text_eq k j then answers j v (suc n) else answers j v n)
    pub resting : (j : String) (v : V) (n : ℕ) → answers j (keys.sleep v) n ≡ answers j v n

-- The three keys are different.
pub record IsApart (o : Options) : Type 0 where
  pub toggles_apart : text_eq o.toggle_etcd_key o.active_cluster_etcd_key ≡ false
  pub manual_apart : text_eq o.toggle_etcd_key o.read_monitoring_etcd_key ≡ false
  pub automatic_apart : text_eq o.active_cluster_etcd_key o.read_monitoring_etcd_key ≡ false

toggled-same : (r : Request) (vs : List String) → toggled r (as_events (follows_toggle r) vs) ≡ vs
toggled-same r [] = refl
toggled-same manual (v ∷ vs) = ap (◌∷◌ v) (toggled-same manual vs)
toggled-same automatic (v ∷ vs) = ap (◌∷◌ v) (toggled-same automatic vs)

abbrev other_toggle : Request → Request
other_toggle manual = automatic
other_toggle automatic = manual

toggled_other :
    (r : Request) (vs : List String)
    → toggled (other_toggle r) (as_events (follows_toggle r) vs) ≡ []
toggled_other r [] = refl
toggled_other manual (v ∷ vs) = toggled_other manual vs
toggled_other automatic (v ∷ vs) = toggled_other automatic vs

no_requests : (g : EtcdGoroutine) (vs : List String) → keep is_other (as_events g vs) ≡ []
no_requests follows_read_urls vs = refl
no_requests (follows_toggle r) [] = refl
no_requests (follows_toggle r) (v ∷ vs) = no_requests (follows_toggle r) vs

text_eq_comm : (a b : String) → text_eq a b ≡ false → text_eq b a ≡ false
text_eq_comm a b h = ground (arith, eq_iff a b, eq_iff b a, h)

text_eq_self : (a : String) → text_eq a a ≡ true
text_eq_self a = ground (arith, eq_iff a a)

key_of-same :
    (o : Options)
    → IsApart o
    → (g h : EtcdGoroutine) → text_eq (key_of o g) (key_of o h) ≡ same_goroutine g h
key_of-same o a (follows_toggle manual) (follows_toggle manual) = text_eq_self _
key_of-same o a (follows_toggle manual) (follows_toggle automatic) = a.toggles_apart
key_of-same o a (follows_toggle manual) follows_read_urls = a.manual_apart
key_of-same o a (follows_toggle automatic) (follows_toggle manual) =
    text_eq_comm _ _ a.toggles_apart
key_of-same o a (follows_toggle automatic) (follows_toggle automatic) = text_eq_self _
key_of-same o a (follows_toggle automatic) follows_read_urls = a.automatic_apart
key_of-same o a follows_read_urls (follows_toggle manual) = text_eq_comm _ _ a.manual_apart
key_of-same o a follows_read_urls (follows_toggle automatic) = text_eq_comm _ _ a.automatic_apart
key_of-same o a follows_read_urls follows_read_urls = text_eq_self _

module _ {V : Type 0} (keys : Keys V) (o : Options)
    (answers : String → V → ℕ → Error ⊎ Option String) (law : IsAnswering keys answers)
    (apart : IsApart o) where
  -- The values that a goroutine hears over a run.
  abbrev heard_of : EtcdGoroutine → List EtcdActivity → V → List String
  heard_of h [] v = []
  heard_of h (rounds g ∷ more) v =
      let rest = heard_of h more (client_after keys o (rounds g) v) in
      if same_goroutine g h then values_by keys o h v ++ rest else rest
  heard_of h (serves_event e ∷ more) v = heard_of h more v

  rested-answers :
      (j : String) (a : V × (Error ⊎ Option String)) (n : ℕ)
      → answers j (rested keys a) n ≡ answers j a.0 n
  rested-answers j (v, inl e) n = law.resting j v n
  rested-answers j (v, inr x) n = refl

  after_round :
      (g h : EtcdGoroutine) (v : V) (n : ℕ)
      → answers (key_of o h) (client_after keys o (rounds g) v) n
        ≡ (if same_goroutine g h then answers (key_of o h) v (suc n) else answers (key_of o h) v n)
  after_round g h v n =
      rested-answers (key_of o h) (keys.next (key_of o g) v) n
      ∙ law.used (key_of o h) (key_of o g) v n
      ∙ ap (λ b. if b then answers (key_of o h) v (suc n) else answers (key_of o h) v n)
          (key_of-same o apart g h)

  heard_of-first :
      (h : EtcdGoroutine) (acts : List EtcdActivity) (v : V)
      → heard_of h acts v ≡ values (first (rounds_of h acts) (answers (key_of o h) v))
  heard_of-first h [] v = refl
  heard_of-first h (serves_event e ∷ more) v = heard_of-first h more v
  heard_of-first h (rounds g ∷ more) v =
      let v' = client_after keys o (rounds g) v in
      let n = rounds_of h more in
      elim (Bool-cases (same_goroutine g h)) [
        | inl e ↦ rw e (
            ap (λ x. value_of x ++ heard_of h more v') (law.answer (key_of o h) v)
            ∙ ap (λ l. value_of (answers (key_of o h) v 0) ++ l)
                (heard_of-first h more v'
                  ∙ ap values (
                      first_same n (answers (key_of o h) v') (λ i. answers (key_of o h) v (suc i))
                        (λ i. after_round g h v i ∙ rw e refl))))
        | inr e ↦ rw e (
            heard_of-first h more v'
            ∙ ap values (
                first_same n (answers (key_of o h) v') (answers (key_of o h) v)
                  (λ i. after_round g h v i ∙ rw e refl)))
      ]

  toggled-heard :
      (r : Request) (acts : List EtcdActivity) (v : V)
      → All IsPlain acts
      → toggled r (events_heard keys o acts v) ≡ heard_of (follows_toggle r) acts v
  toggled-heard r [] v h = refl
  toggled-heard r (serves_event e ∷ more) v (plain, h) =
      ap (λ l. l ++ toggled r (events_heard keys o more v)) (no_toggle_values r e plain)
      ∙ toggled-heard r more v h
  toggled-heard r (rounds g ∷ more) v (_, h) =
      let v' = client_after keys o (rounds g) v in
      toggled-append r (events_by keys o (rounds g) v) (events_heard keys o more v')
      ∙ ap (λ l. toggled r (as_events g (values_by keys o g v)) ++ l) (toggled-heard r more v' h)
      ∙ by_goroutine g r (heard_of (follows_toggle r) more v')
    where
      by_goroutine :
          (g : EtcdGoroutine) (r : Request) (rest : List String)
          → toggled r (as_events g (values_by keys o g v)) ++ rest ≡ (
              if same_goroutine g (follows_toggle r)
              then values_by keys o (follows_toggle r) v ++ rest
              else rest)
      by_goroutine (follows_toggle manual) manual rest =
          ap (λ l. l ++ rest) (toggled-same manual (values_by keys o (follows_toggle manual) v))
      by_goroutine (follows_toggle automatic) automatic rest =
          ap (λ l. l ++ rest)
            (toggled-same automatic (values_by keys o (follows_toggle automatic) v))
      by_goroutine (follows_toggle manual) automatic rest =
          ap (λ l. l ++ rest) (toggled_other manual (values_by keys o (follows_toggle manual) v))
      by_goroutine (follows_toggle automatic) manual rest =
          ap (λ l. l ++ rest)
            (toggled_other automatic (values_by keys o (follows_toggle automatic) v))
      by_goroutine follows_read_urls manual rest = refl
      by_goroutine follows_read_urls automatic rest = refl

  urls_heard-heard_of :
      (acts : List EtcdActivity) (v : V)
      → urls_heard keys o acts v ≡ heard_of follows_read_urls acts v
  urls_heard-heard_of [] v = refl
  urls_heard-heard_of (serves_event e ∷ more) v = urls_heard-heard_of more v
  urls_heard-heard_of (rounds (follows_toggle manual) ∷ more) v = urls_heard-heard_of more _
  urls_heard-heard_of (rounds (follows_toggle automatic) ∷ more) v = urls_heard-heard_of more _
  urls_heard-heard_of (rounds follows_read_urls ∷ more) v =
      ap (λ l. values_by keys o follows_read_urls v ++ l) (urls_heard-heard_of more _)

  requests-heard :
      (acts : List EtcdActivity) (v : V)
      → All IsPlain acts
      → keep is_other (events_heard keys o acts v) ≡ requests acts
  requests-heard [] v h = refl
  requests-heard (serves_event e ∷ more) v (plain, h) =
      rw plain (ap (◌∷◌ e) (requests-heard more v h))
  requests-heard (rounds g ∷ more) v (_, h) =
      keep-append is_other (events_by keys o (rounds g) v) _
      ∙ ap (λ l. l ++ keep is_other (events_heard keys o more (client_after keys o (rounds g) v)))
          (no_requests g (values_by keys o g v))
      ∙ requests-heard more _ h

  -- Where etcd gives each of three different keys a sequence of answers, in every order of the
  -- goroutines' rounds and of the requests: there are events that lead the scheduler and its store to
  -- where the program leads them. Leaving out the toggles, they are the requests, in order. The values
  -- of the manual toggle among them are those that etcd gave for the toggle's key in as many answers
  -- as its goroutine made rounds, in order, and those of the automatic toggle are those of the key of
  -- the active cluster: none is lost, repeated, reordered or handed to the other toggle, and an answer
  -- with an error or no node has none. The environments are those of the last value that was given for
  -- the key of the environments, or stay where there is none.
  pub run_etcd-told :
      {W U : Type 0} (parse_url : String → Error ⊎ U) (rw' : MetadataReadWriter W)
      (d : DurationText) (digest : String → String) (to_json : List String → String)
      (acts : List EtcdActivity) (p : EtcdProgram V W U)
      → All IsPlain acts
      → let p' = run_etcd keys o parse_url rw' d digest to_json acts p in
        (es : List Event) × (p'.scheduler ≡ serve rw' d digest to_json es p.scheduler)
        × (keep is_other es ≡ requests acts)
        × (toggled manual es
            ≡ values (
                first
                  (rounds_of (follows_toggle manual) acts)
                  (answers o.toggle_etcd_key p.client_world)))
        × (toggled automatic es
            ≡ values (
                first
                  (rounds_of (follows_toggle automatic) acts)
                  (answers o.active_cluster_etcd_key p.client_world)))
        × (p'.environments
            ≡ latest parse_url
                (values (
                  first
                    (rounds_of follows_read_urls acts)
                    (answers o.read_monitoring_etcd_key p.client_world)))
                p.environments)
  run_etcd-told parse_url rw' d digest to_json acts p plain =
      let v = p.client_world in
      let (led, read) = run_etcd-heard keys o parse_url rw' d digest to_json acts p law.live in
      (
        events_heard keys o acts v,
        led,
        requests-heard acts v plain,
        toggled-heard manual acts v plain ∙ heard_of-first (follows_toggle manual) acts v,
        toggled-heard automatic acts v plain ∙ heard_of-first (follows_toggle automatic) acts v,
        read
            ∙ ap (λ l. latest parse_url l p.environments)
                (urls_heard-heard_of acts v ∙ heard_of-first follows_read_urls acts v),
      )
