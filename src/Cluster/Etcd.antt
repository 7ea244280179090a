-- ===== src/Cluster/Etcd.antt =====
-- cluster/etcd/read_environments.go and cluster/etcd/external_service.go: the environments read from
-- etcd, which have no credentials.
pub mod SameAsFile
use Prim.Native.String.{◌++◌ as append}
use publish_carousel.Prelude.{
  ℕ, String, not, List, [], ◌∷◌, ◌++◌, Option, none, some, ◌⊎◌, inl, inr, Error, Result, ok, err,
  panic, if◌then◌else◌, concat, ◌==◌, is_blank,
}
use publish_carousel.Prelude.Split.{split, split_n}
use publish_carousel.Cluster.{Request, HttpClient}
use publish_carousel.Cluster.External.{add_error}
use publish_carousel.Cluster.Environments.{set_key, comma, colon, add_lines}

pub record Environment (U : Type 0) : Type 0 where
  pub name : String
  pub read_url : U

unfoldable pub compact_etcd_errors : String → List Error → Option Error
compact_etcd_errors msg [] = none
compact_etcd_errors msg (e ∷ errs) = some (add_lines msg (e ∷ errs))

module _ {U : Type 0} (parse_url : String → Error ⊎ U) where
  abbrev pub Environments : Type 0
  Environments = List (String × Environment U)

  abbrev pub add_parsed : String → Error ⊎ U → Environments × List Error → Environments × List Error
  add_parsed env (inl e) (m, errs) = (m, errs ++ concat (env ∷ " - " ∷ e ∷ []) ∷ [])
  add_parsed env (inr u) (m, errs) = (set_key env (record { name = env; read_url = u }) m, errs)

  abbrev pub add_environment :
      String → List String → Environments × List Error → Error ⊎ Environments × List Error
  add_environment s (env ∷ url ∷ []) a = inr (add_parsed env (parse_url url) a)
  add_environment s pieces a = inl (
      concat (
        "config for environment \"" ∷ s
        ∷ "\" is incorrect - should be in the format environment1:*,environment2:*" ∷ []))

  abbrev finish_errors : Environments × List Error → Environments × Option Error
  finish_errors (m, errs) = (m, compact_etcd_errors "One or more read-urls failed validation" errs)

  abbrev pub go_on_or_leave :
      (Environments × List Error → Environments × Option Error)
      → Environments
      → Error ⊎ Environments × List Error
      → Environments × Option Error
  go_on_or_leave rest m (inl e) = (m, some e)
  go_on_or_leave rest m (inr a) = rest a

  unfoldable pub parse_each_etcd :
      List String → Environments × List Error → Environments × Option Error
  unfolding set_key compact_etcd_errors
  parse_each_etcd [] a = finish_errors a
  parse_each_etcd (s ∷ rest) a =
      go_on_or_leave (parse_each_etcd rest) a.0
        (if is_blank s then inr a else add_environment s (split_n 2 colon s) a)

  -- `parseEnvironments`
  unfoldable pub parse_etcd_environments : String → Environments × Option Error
  unfolding parse_each_etcd
  parse_etcd_environments value =
      if is_blank value then ([], none) else parse_each_etcd (split comma value) ([], [])

  -- The callback of `startWatcher`: the map is taken, with an error or without.
  unfoldable pub on_read_urls : String → Environments
  unfolding parse_etcd_environments
  on_read_urls value = (parse_etcd_environments value).0

  -- `newEnvironmentService` over the answer of the watcher's `Read`.
  abbrev checked_map : Environments × Option Error → Error ⊎ Environments
  checked_map (m, none) = inr m
  checked_map (m, some e) = inl e

  unfoldable pub new_etcd_environment_service : Error ⊎ String → Error ⊎ Environments
  unfolding parse_etcd_environments
  new_etcd_environment_service (inl e) = inl e
  new_etcd_environment_service (inr urls) = checked_map (parse_etcd_environments urls)

  -- `NewExternalService`: beside an error the environment service is nil, and `startWatcher` reads a
  -- field of it before the error is returned.
  unfoldable pub new_etcd_service : Error ⊎ String → Result Environments
  unfolding new_etcd_environment_service
  new_etcd_service answer = started (new_etcd_environment_service answer)
    where
      started : Error ⊎ Environments → Result Environments
      started (inl e) = panic
      started (inr m) = ok m

-- `externalService` without its environments.
pub record EtcdService (W B U : Type 0) : Type 0 where
  pub name : String
  pub service_name : String
  pub client : HttpClient W B
  pub url_text : U → String

unfoldable pub etcd_environments :
    {U : Type 0} → List (String × Environment U) → List (Environment U)
etcd_environments [] = []
etcd_environments ((k, env) ∷ m) = env ∷ etcd_environments m

module _ {W B U : Type 0} (service : EtcdService W B U) where
  unfoldable pub etcd_gtg_url_for : Environment U → String
  etcd_gtg_url_for env =
      concat (service.url_text env.read_url ∷ "/__" ∷ service.service_name ∷ "/__gtg" ∷ [])

  abbrev pub answered : Environment U → Error ⊎ ℕ × B → Option Error
  answered env (inl e) = some e
  answered env (inr (status, body)) =
      if not (status == 200)
      then some (
          concat (
            "GTG for "
            ∷ service.service_name
            ∷ "@"
            ∷ etcd_gtg_url_for env
            ∷ " returned a non-200 code: "
            ∷ service.client.decimal status
            ∷ []))
      else none

  abbrev pub check_at : Environment U → W → Option Error → W × Option Error
  check_at env w (some e) = (w, some e)
  check_at env w none =
      let a =
        service.client.do_request
          (record {
            url = etcd_gtg_url_for env;
            user_agent = "UPP Publish Carousel";
            basic_auth = none;
          })
          w in
      (a.0, answered env a.1)

  unfoldable pub check_etcd_environment : Environment U → W → W × Option Error
  unfolding etcd_gtg_url_for
  check_etcd_environment env w = check_at env w (service.client.check_url (etcd_gtg_url_for env))

  unfoldable pub check_each_etcd : List (Environment U) → W → W × List Error
  unfolding check_etcd_environment
  check_each_etcd [] w = (w, [])
  check_each_etcd (env ∷ envs) w =
      let a = check_etcd_environment env w in
      let rest = check_each_etcd envs a.0 in (rest.0, add_error a.1 rest.1)

  -- `Check`
  unfoldable pub check_etcd : List (String × Environment U) → W → W × Option Error
  unfolding check_each_etcd etcd_environments compact_etcd_errors
  check_etcd m w =
      let a = check_each_etcd (etcd_environments m) w in
      (a.0, compact_etcd_errors "Failure occurred while checking GTG for external service." a.1)
