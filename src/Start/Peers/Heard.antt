-- ===== src/Start/Peers/Heard.antt =====
-- main.go: what a program that watches the keys of etcd makes of the values that etcd gives.
use publish_carousel.Prelude.{
  String, ◌≡◌, refl, sym, ap, ◌∙◌, List, [], ◌∷◌, ◌++◌, map, none, some, ◌⊎◌, inl, inr, Error,
  Option, Result,
}
use publish_carousel.Cluster.Etcd.{Environment, on_read_urls}
use publish_carousel.Scheduler.Duration.{DurationText}
use publish_carousel.Scheduler.Control.{MetadataReadWriter}
use publish_carousel.Start.Flags.{Options}
use publish_carousel.Start.Serve.{Event, toggles, serve_one, serve}
use publish_carousel.Start.Serve.Runs.{serve-append}
use publish_carousel.Start.Peers.{
  EtcdProgram, EtcdGoroutine, follows_toggle, follows_read_urls, key_of, EtcdActivity, rounds,
  serves_event, program_keys, on_value, act_etcd, run_etcd,
}
use publish_carousel.Watcher.Etcd.{Keys, value_of, watch_key, after_next}

-- The client after an answer of `Next`: there is a sleep after an error.
abbrev pub rested : {V : Type 0} → Keys V → V × (Error ⊎ Option String) → V
rested keys (v, inl e) = keys.sleep v
rested keys (v, inr value) = v

-- What the values of a key are to the scheduler.
abbrev pub as_events : EtcdGoroutine → List String → List Event
as_events (follows_toggle r) values = map (λ v. toggles v r) values
as_events follows_read_urls values = []

abbrev pub as_urls : EtcdGoroutine → List String → List String
as_urls (follows_toggle r) values = []
as_urls follows_read_urls values = values

module _ {V : Type 0} (keys : Keys V) (o : Options) where
  -- The client after an activity; the requests do not use it.
  abbrev pub client_after : EtcdActivity → V → V
  client_after (rounds g) v = rested keys (keys.next (key_of o g) v)
  client_after (serves_event e) v = v

  abbrev pub values_by : EtcdGoroutine → V → List String
  values_by g v = value_of (keys.next (key_of o g) v).1

  abbrev pub events_by : EtcdActivity → V → List Event
  events_by (rounds g) v = as_events g (values_by g v)
  events_by (serves_event e) v = e ∷ []

  abbrev pub urls_by : EtcdActivity → V → List String
  urls_by (rounds g) v = as_urls g (values_by g v)
  urls_by (serves_event e) v = []

  -- The requests and the values of the toggles, in the order in which they come.
  abbrev pub events_heard : List EtcdActivity → V → List Event
  events_heard [] v = []
  events_heard (a ∷ more) v = events_by a v ++ events_heard more (client_after a v)

  -- The values of the key of the environments.
  abbrev pub urls_heard : List EtcdActivity → V → List String
  urls_heard [] v = []
  urls_heard (a ∷ more) v = urls_by a v ++ urls_heard more (client_after a v)

-- The environments of the last text, or those from before where there is none.
abbrev pub latest :
    {U : Type 0}
    → (String → Error ⊎ U)
    → List String
    → List (String × Environment U)
    → List (String × Environment U)
latest parse_url [] m = m
latest parse_url (urls ∷ more) m = latest parse_url more (on_read_urls parse_url urls)

latest-append :
    {U : Type 0} (parse_url : String → Error ⊎ U) (xs ys : List String)
    (m : List (String × Environment U))
    → latest parse_url (xs ++ ys) m ≡ latest parse_url ys (latest parse_url xs m)
latest-append parse_url [] ys m = refl
latest-append parse_url (x ∷ xs) ys m = latest-append parse_url xs ys (on_read_urls parse_url x)

-- A round of `Watch` with a context that is not done.
watch_key-round :
    {W : Type 0} (keys : Keys W) (callback : String → W → W × Result (Unit {0})) (key : String)
    (w : W)
    → keys.ctx_err w ≡ none
    → watch_key keys callback 1 key w ≡ after_next keys callback (keys.next key w)
unfolding watch_key
watch_key-round keys callback key w live = rw (watch_key, live) refl

module _ {V W U : Type 0} (keys : Keys V) (o : Options) (parse_url : String → Error ⊎ U)
    (rw' : MetadataReadWriter W) (d : DurationText) (digest : String → String)
    (to_json : List String → String) where
  abbrev next : EtcdActivity → EtcdProgram V W U → EtcdProgram V W U
  next = act_etcd keys o parse_url rw' d digest to_json

  -- The program that a client, a scheduler and environments make up.
  abbrev Follows : EtcdProgram V W U → EtcdProgram V W U → V → List Event → List String → Type 0
  Follows p p' v es urls =
      (p'.client_world ≡ v)
      × (p'.scheduler ≡ serve rw' d digest to_json es p.scheduler)
      × (p'.environments ≡ latest parse_url urls p.environments)

  -- One answer of `Next`.
  answer-Follows :
      (g : EtcdGoroutine) (p : EtcdProgram V W U) (v : V) (x : Error ⊎ Option String)
      → Follows p
          (after_next
            (program_keys keys)
            (on_value keys o parse_url rw' d digest to_json g)
            (record p { client_world = v }, x))
          (rested keys (v, x))
          (as_events g (value_of x))
          (as_urls g (value_of x))
  unfolding on_value serve serve_one
  answer-Follows (follows_toggle r) p v (inl e) = (refl, refl, refl)
  answer-Follows follows_read_urls p v (inl e) = (refl, refl, refl)
  answer-Follows (follows_toggle r) p v (inr none) = (refl, refl, refl)
  answer-Follows follows_read_urls p v (inr none) = (refl, refl, refl)
  answer-Follows (follows_toggle r) p v (inr (some value)) = (refl, refl, refl)
  answer-Follows follows_read_urls p v (inr (some value)) = (refl, refl, refl)

  act_etcd-Follows :
      ((v : V) → keys.ctx_err v ≡ none)
      → (a : EtcdActivity) (p : EtcdProgram V W U)
      → Follows p
          (next a p)
          (client_after keys o a p.client_world)
          (events_by keys o a p.client_world)
          (urls_by keys o a p.client_world)
  unfolding act_etcd serve
  act_etcd-Follows live (serves_event e) p = (refl, refl, refl)
  act_etcd-Follows live (rounds g) p =
      let n = keys.next (key_of o g) p.client_world in
      let callback = on_value keys o parse_url rw' d digest to_json g in
      rw (watch_key-round (program_keys keys) callback (key_of o g) p (live p.client_world))
        (answer-Follows g p n.0 n.1)

  -- Where the context of the goroutines is never done, in every order of their rounds and of the
  -- requests: the scheduler and its store are led where the requests and the values of the keys of
  -- the two toggles lead them, served in the order in which they come, a value that comes twice
  -- served twice; and the environments are those of the last value of their own key, or stay where
  -- none comes. An answer with an error, or with no node, only lets the client sleep or go on.
  pub run_etcd-heard :
      (activities : List EtcdActivity) (p : EtcdProgram V W U)
      → ((v : V) → keys.ctx_err v ≡ none)
      → let p' = run_etcd keys o parse_url rw' d digest to_json activities p in
        (p'.scheduler
          ≡ serve rw' d digest to_json (events_heard keys o activities p.client_world) p.scheduler)
        × (p'.environments
            ≡ latest parse_url (urls_heard keys o activities p.client_world) p.environments)
  unfolding run_etcd serve
  run_etcd-heard [] p live = (refl, refl)
  run_etcd-heard (a ∷ more) p live =
      let v = p.client_world in
      let p1 = next a p in
      let (client, led, read) = act_etcd-Follows live a p in
      let (ends, last) = run_etcd-heard more p1 live in
      (
        ends
            ∙ ap (λ x. serve rw' d digest to_json (events_heard keys o more x) p1.scheduler) client
            ∙ ap (serve rw' d digest to_json (events_heard keys o more (client_after keys o a v)))
                led
            ∙ sym (
                serve-append rw' d digest to_json (events_by keys o a v)
                  (events_heard keys o more (client_after keys o a v)) p.scheduler),
        last
            ∙ ap (λ x. latest parse_url (urls_heard keys o more x) p1.environments) client
            ∙ ap (latest parse_url (urls_heard keys o more (client_after keys o a v))) read
            ∙ sym (
                latest-append parse_url (urls_by keys o a v)
                  (urls_heard keys o more (client_after keys o a v)) p.environments),
      )
