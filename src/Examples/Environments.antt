-- ===== src/Examples/Environments.antt =====
-- Two environments, their configuration, and a client that answers 200 for one of them.
use publish_carousel.Cluster.Etcd.{parse_etcd_environments}
use publish_carousel.Cluster.Etcd.SameAsFile.{lift_answer, parse_etcd_environments-file}
use publish_carousel.Prelude.{
  ℕ, String, ◌≡◌, refl, false, List, [], ◌∷◌, ◌++◌, map, none, some, ◌⊎◌, inr, Error, if◌then◌else◌,
  text_eq, is_none, concat,
}
use publish_carousel.Prelude.Split.{join}
use publish_carousel.Cluster.{Credentials, Request, HttpClient}
use publish_carousel.Cluster.Environments.{ReadEnvironment, get_key, parse_environments}
use publish_carousel.Cluster.Environments.Pieces.{Entry, print_environments, print_credentials}
use publish_carousel.Cluster.Environments.RoundTrip.{parse_environments-print}
use publish_carousel.Cluster.External.{
  ExternalService, gtg_url_for, gtg_request, get_environments, check,
}
use publish_carousel.Cluster.External.Checked.{IsRecorded, check-all_good}

-- A URL is kept as its text.
abbrev parse_text : String → Error ⊎ String
parse_text s = inr s

abbrev environments : List (Entry String)
environments =
    ("us", ("https://us:8080", "https://us:8080")) ∷ ("eu", ("https://eu", "https://eu")) ∷ []

abbrev passwords : List (String × Credentials)
passwords = ("eu", record { username = "me"; password = "a:b" }) ∷ []

printed : print_environments environments ≡ "us:https://us:8080,eu:https://eu"
unfolding join
printed = refl

parse_environments-print_example :
    let (m, e) =
      parse_environments parse_text
        (print_environments environments)
        (print_credentials passwords) in
    (e ≡ none)
    × (get_key "eu" m
        ≡ some (record {
          name = "eu";
          read_url = "https://eu";
          credentials = some (record { username = "me"; password = "a:b" });
        }))
parse_environments-print_example =
    parse_environments-print parse_text environments passwords "eu"
      ((refl, refl, refl), ((refl, refl, refl), tt)) ((refl, refl, refl), tt)

-- The world is the list of the requests that were sent.
abbrev answer : Request → Error ⊎ ℕ × Unit {0}
answer r =
    if text_eq r.url "https://eu/__kafka-lagcheck/__gtg" then inr (200, tt) else inr (503, tt)

abbrev recording : HttpClient (List Request) (Unit {0})
recording = record {
  check_url = λ url. none;
  do_request = λ r w. (w ++ r ∷ [], answer r);
  decimal = λ n. "503";
}

abbrev lagcheck : ExternalService (List Request) (Unit {0}) String
lagcheck = record {
  name = "kafka-lagcheck-delivery";
  service_name = "kafka-lagcheck";
  client = recording;
  url_text = λ u. u;
}

recorded : IsRecorded recording answer (λ w. w)
recorded = record { answers = λ r w. refl; remembers = λ r w. refl }

abbrev us_eu : List (String × ReadEnvironment String)
us_eu =
    ("us", record { name = "us"; read_url = "https://us"; credentials = none })
    ∷ ("eu", record { name = "eu"; read_url = "https://eu"; credentials = none })
    ∷ []

check-all_good_example :
    ((check lagcheck us_eu []).0 ≡ map (gtg_request lagcheck) (get_environments us_eu))
    × (is_none (check lagcheck us_eu []).1 ≡ false)
unfolding gtg_url_for get_environments concat gtg_request
check-all_good_example = check-all_good lagcheck answer (λ w. w) us_eu [] recorded

parse_etcd_environments-file_example :
    parse_environments parse_text "us:https://us,bad" ""
    ≡ lift_answer parse_text (parse_etcd_environments parse_text "us:https://us,bad")
parse_etcd_environments-file_example = parse_etcd_environments-file parse_text "us:https://us,bad"
