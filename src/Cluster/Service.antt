-- ===== src/Cluster/Service.antt =====
-- cluster/service.go: a service of the cluster, checked at its good-to-go or its health endpoint.
use Prim.Native.String.{◌++◌ as append}
use publish_carousel.Prelude.{
  ℕ, String, Bool, not, List, [], ◌∷◌, Option, none, some, ◌⊎◌, inl, inr, Error, Result, ok, err,
  panic, if◌then◌else◌, concat, text_eq, ◌==◌,
}
use publish_carousel.Cluster.{HttpClient}

pub record ClusterService : Type 0 where
  pub service_name : String
  pub gtg_url : String
  pub health_url : String
  pub check_healthchecks : Bool

-- A value of a JSON object, as far as it is looked at.
pub data JsonValue : Type 0 where
  bool : Bool → JsonValue
  other : JsonValue

abbrev pub lookup_value : String → List (String × JsonValue) → Option JsonValue
lookup_value key [] = none
lookup_value key ((k, v) ∷ fields) = if text_eq k key then some v else lookup_value key fields

-- `NewService`, where a URL is kept as its text, over `url.ParseRequestURI`.
unfoldable pub new_service :
    (String → Option Error) → String → String → Bool → Error ⊎ ClusterService
new_service parse_uri service_name url check_healthchecks =
    refused (parse_uri (append url "/__gtg")) (parse_uri (append url "/__health"))
  where
    refused : Option Error → Option Error → Error ⊎ ClusterService
    refused (some e) f = inl e
    refused none (some e) = inl e
    refused none none = inr (record {
      service_name = service_name;
      gtg_url = append url "/__gtg";
      health_url = append url "/__health";
      check_healthchecks = check_healthchecks;
    })

module _ {W B : Type 0} (client : HttpClient W B) (decode : B → Error ⊎ List (String × JsonValue))
    (service : ClusterService) where
  abbrev get : String → W → Option Error → W × (Error ⊎ ℕ × B)
  get url w (some e) = (w, inl e)
  get url w none =
      client.do_request
        (record { url = url; user_agent = "UPP Publish Carousel"; basic_auth = none }) w

  -- `doGet`
  unfoldable pub do_get : String → W → W × (Error ⊎ ℕ × B)
  do_get url w = get url w (client.check_url url)

  -- `result["ok"].(bool)` panics where the field is missing, or is no Boolean.
  abbrev is_healthy : Option JsonValue → Result (Unit {0})
  is_healthy none = panic
  is_healthy (some other) = panic
  is_healthy (some (bool b)) =
      if not b
      then err (concat ("Healthcheck failed @ \"" ∷ service.health_url ∷ "\"" ∷ []))
      else ok tt

  abbrev decoded : Error ⊎ List (String × JsonValue) → Result (Unit {0})
  decoded (inl e) = err e
  decoded (inr fields) = is_healthy (lookup_value "ok" fields)

  abbrev after_health : W × (Error ⊎ ℕ × B) → W × Result (Unit {0})
  after_health (w, inl e) = (w, err e)
  after_health (w, inr (status, body)) = (
    w,
    if not (status == 200)
        then err (concat ("Non-200 code while checking \"" ∷ service.health_url ∷ "\"" ∷ []))
        else decoded (decode body),
  )

  unfoldable pub health : W → W × Result (Unit {0})
  unfolding do_get
  health w = after_health (do_get service.health_url w)

  abbrev after_gtg : W × (Error ⊎ ℕ × B) → W × Result (Unit {0})
  after_gtg (w, inl e) = (w, err e)
  after_gtg (w, inr (status, body)) = (
    w,
    if not (status == 200)
        then err (
            concat (
              "GTG for "
              ∷ service.service_name
              ∷ " returned a non-200 code: "
              ∷ client.decimal status
              ∷ []))
        else ok tt,
  )

  unfoldable pub gtg : W → W × Result (Unit {0})
  unfolding do_get
  gtg w = after_gtg (do_get service.gtg_url w)

  -- `Check`
  unfoldable pub check : W → W × Result (Unit {0})
  unfolding health gtg
  check w = if service.check_healthchecks then health w else gtg w
