-- ===== src/Cluster/External.antt =====
-- cluster/file/external_service.go, and the environment service of
-- cluster/file/read_environments.go: a service that is checked in every environment.
pub mod Checked
use Prim.Native.String.{◌++◌ as append}
use publish_carousel.Prelude.{
  ℕ, String, not, List, [], ◌∷◌, Option, none, some, ◌⊎◌, inl, inr, Error, if◌then◌else◌, concat,
  text_eq, ◌==◌,
}
use publish_carousel.Cluster.{Request, HttpClient}
use publish_carousel.Cluster.Environments.{
  ReadEnvironment, EnvMap, compact_errors, parse_environments,
}

module _ {W U : Type 0} (parse_url : String → Error ⊎ U)
    (read : String → W → W × (Error ⊎ String)) where
  abbrev checked_map : EnvMap parse_url × Option Error → Error ⊎ EnvMap parse_url
  checked_map (m, none) = inr m
  checked_map (m, some e) = inl e

  abbrev after_credentials : String → W × (Error ⊎ String) → W × (Error ⊎ EnvMap parse_url)
  after_credentials urls (w, inl e) = (w, inl e)
  after_credentials urls (w, inr creds) = (w, checked_map (parse_environments parse_url urls creds))

  abbrev after_urls : String → W × (Error ⊎ String) → W × (Error ⊎ EnvMap parse_url)
  after_urls credentials_file (w, inl e) = (w, inl e)
  after_urls credentials_file (w, inr urls) =
      after_credentials urls
        (if not (text_eq credentials_file "") then read credentials_file w else (w, inr ""))

  -- `newEnvironmentService`, over `Read` of the watcher: the environments.
  unfoldable pub new_environment_service : String → String → W → W × (Error ⊎ EnvMap parse_url)
  new_environment_service environments_file credentials_file w =
      after_urls credentials_file (read environments_file w)

  -- The callback of `startWatcher` for the file of the environments. An error of the parser is only
  -- logged, and its map taken.
  abbrev updated_environments :
      String → EnvMap parse_url → W × (Error ⊎ String) → W × EnvMap parse_url
  updated_environments urls m (w, inl e) = (w, m)
  updated_environments urls m (w, inr creds) = (w, (parse_environments parse_url urls creds).0)

  unfoldable pub on_environments : String → String → EnvMap parse_url → W → W × EnvMap parse_url
  on_environments credentials_file urls m w = updated_environments urls m (read credentials_file w)

  -- The callback for the file of the credentials, which is watched where its name is not empty.
  abbrev updated_credentials :
      String → EnvMap parse_url → W × (Error ⊎ String) → W × EnvMap parse_url
  updated_credentials creds m (w, inl e) = (w, m)
  updated_credentials creds m (w, inr urls) = (w, (parse_environments parse_url urls creds).0)

  unfoldable pub on_credentials : String → String → EnvMap parse_url → W → W × EnvMap parse_url
  on_credentials environments_file creds m w =
      updated_credentials creds m (read environments_file w)

-- The files that `startWatcher` watches.
unfoldable pub watched_files : String → String → List String
watched_files environments_file credentials_file =
    if text_eq credentials_file ""
    then environments_file ∷ []
    else environments_file ∷ credentials_file ∷ []

-- `GetEnvironments`
unfoldable pub get_environments :
    {U : Type 0} → List (String × ReadEnvironment U) → List (ReadEnvironment U)
get_environments [] = []
get_environments ((k, env) ∷ m) = env ∷ get_environments m

-- `externalService` without its environments; `url_text` is `String` of a URL.
pub record ExternalService (W B U : Type 0) : Type 0 where
  pub name : String
  pub service_name : String
  pub client : HttpClient W B
  pub url_text : U → String

abbrev pub add_error : Option Error → List Error → List Error
add_error none errs = errs
add_error (some e) errs = e ∷ errs

module _ {W B U : Type 0} (service : ExternalService W B U) where
  -- `gtgURLFor`
  unfoldable pub gtg_url_for : ReadEnvironment U → String
  gtg_url_for env =
      concat (service.url_text env.read_url ∷ "/__" ∷ service.service_name ∷ "/__gtg" ∷ [])

  unfoldable pub gtg_request : ReadEnvironment U → Request
  unfolding gtg_url_for
  gtg_request env = record {
    url = gtg_url_for env;
    user_agent = "UPP Publish Carousel";
    basic_auth = env.credentials;
  }

  abbrev pub answered : ReadEnvironment U → Error ⊎ ℕ × B → Option Error
  answered env (inl e) = some e
  answered env (inr (status, body)) =
      if not (status == 200)
      then some (
          concat (
            "GTG for "
            ∷ service.service_name
            ∷ "@"
            ∷ gtg_url_for env
            ∷ " returned a non-200 code: "
            ∷ service.client.decimal status
            ∷ []))
      else none

  -- One round of the loop: the environment's error, if it has one.
  abbrev pub check_at : ReadEnvironment U → W → Option Error → W × Option Error
  check_at env w (some e) = (w, some e)
  check_at env w none =
      let a = service.client.do_request (gtg_request env) w in (a.0, answered env a.1)

  unfoldable pub check_environment : ReadEnvironment U → W → W × Option Error
  unfolding gtg_request gtg_url_for
  check_environment env w = check_at env w (service.client.check_url (gtg_url_for env))

  unfoldable pub check_each : List (ReadEnvironment U) → W → W × List Error
  unfolding check_environment
  check_each [] w = (w, [])
  check_each (env ∷ envs) w =
      let a = check_environment env w in
      let rest = check_each envs a.0 in (rest.0, add_error a.1 rest.1)

  -- `Check`
  unfoldable pub check : List (String × ReadEnvironment U) → W → W × Option Error
  unfolding check_each get_environments compact_errors
  check m w =
      let a = check_each (get_environments m) w in
      (a.0, compact_errors "Failure occurred while checking GTG for external service." a.1)

  -- `String`
  abbrev describe : String → List (ReadEnvironment U) → String
  describe desc [] = desc
  describe desc (env ∷ envs) =
      describe (concat (desc ∷ " " ∷ env.name ∷ ": " ∷ service.url_text env.read_url ∷ "," ∷ []))
        envs

  unfoldable pub to_string : List (String × ReadEnvironment U) → String
  unfolding get_environments
  to_string m = describe (append service.name " -") (get_environments m)
