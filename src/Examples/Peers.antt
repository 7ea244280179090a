-- ===== src/Examples/Peers.antt =====
-- A program that is started from etcd, and that watches its keys.
use publish_carousel.Prelude.{
  ℕ, suc, ◌+◌, String, ◌≡◌, refl, ap, Bool, true, false, keep, arith, List, [], ◌∷◌, Option, none,
  some, ◌⊎◌, inl, inr, Error, if◌then◌else◌, text_eq, ◌==◌,
}
use publish_carousel.Scheduler.Mode.{running}
use publish_carousel.Scheduler.Control.Toggle.{automatic, manual}
use publish_carousel.Watcher.Etcd.{Keys}
use publish_carousel.Start.Flags.{Options}
use publish_carousel.Start.Serve.{Event, starts, serve}
use publish_carousel.Start.Peers.{
  EtcdProgram, follows_toggle, follows_read_urls, EtcdActivity, rounds, serves_event, run_etcd,
}
use publish_carousel.Start.Peers.Heard.{latest}
use publish_carousel.Start.Peers.Told.{IsAnswering, IsApart, run_etcd-told}
use publish_carousel.Start.Watching.Follows.{is_other, toggled}
use publish_carousel.Examples.Acting.{options}
use publish_carousel.Examples.Configs.{all_minutes}
use publish_carousel.Examples.Schedules.{with_one}
use publish_carousel.Examples.Restarts.{Shelves, shelves, nothing}

abbrev named : Options
named = record options {
  read_monitoring_etcd_key = "/ft/config/read";
  toggle_etcd_key = "/ft/config/toggle";
  active_cluster_etcd_key = "/ft/config/active";
}

-- The world counts the answers that each key has given.
abbrev Given : Type 0
Given = String → ℕ

-- The toggle's second answer is an error; the toggles are given as off.
abbrev script : String → ℕ → Error ⊎ Option String
script key n =
    if text_eq key "/ft/config/read"
    then inr (some "us:https://us")
    else if n == 1
    then inl "timeout"
    else inr (some "false")

abbrev peers : Keys Given
peers = record {
  get = λ key v. (v, inr "true");
  next = λ key v. ((λ j. if text_eq key j then suc (v j) else v j), script key (v key));
  ctx_err = λ v. none;
  sleep = λ v. v;
}

abbrev answers : String → Given → ℕ → Error ⊎ Option String
answers key v n = script key (n + v key)

used_up :
    (b : Bool) (j : String) (m n : ℕ)
    → script j (n + (if b then suc m else m))
      ≡ (if b then script j (suc n + m) else script j (n + m))
used_up true j m n = ap (script j) (omega arith)
used_up false j m n = refl

peers-IsAnswering : IsAnswering peers answers
peers-IsAnswering = record {
  live = λ v. refl;
  answer = λ k v. ap (script k) (omega arith);
  used = λ j k v n. used_up (text_eq k j) j (v j) n;
  resting = λ j v n. refl;
}

named-IsApart : IsApart named
named-IsApart = record { toggles_apart = refl; manual_apart = refl; automatic_apart = refl }

abbrev parse_text : String → Error ⊎ String
parse_text s = inr s

abbrev same : String → String
same text = text

abbrev no_json : List String → String
no_json l = "[]"

abbrev begun : EtcdProgram Given Shelves String
begun = record {
  client_world = λ key. 0;
  scheduler = (with_one running 1, nothing);
  environments = [];
}

abbrev activities : List EtcdActivity
activities =
    rounds (follows_toggle manual)
    ∷ rounds (follows_toggle manual)
    ∷ serves_event starts
    ∷ rounds follows_read_urls
    ∷ rounds (follows_toggle automatic)
    ∷ []

run_etcd-told_example :
    let p = run_etcd peers named parse_text shelves all_minutes same no_json activities begun in
    (es : List Event) × (p.scheduler
      ≡ serve shelves all_minutes same no_json es (with_one running 1, nothing))
    × (keep is_other es ≡ starts ∷ [])
    × (toggled manual es ≡ "false" ∷ [])
    × (toggled automatic es ≡ "false" ∷ [])
    × (p.environments ≡ latest parse_text ("us:https://us" ∷ []) [])
run_etcd-told_example =
    run_etcd-told peers named answers peers-IsAnswering named-IsApart parse_text shelves all_minutes
      same no_json activities begun (tt, (tt, (refl, (tt, (tt, tt)))))
