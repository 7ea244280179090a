-- ===== src/Cluster.antt =====
-- cluster/: the services of a publishing cluster whose health is checked.
pub mod Service
pub mod Environments
pub mod External
pub mod Etcd
use publish_carousel.Prelude.{ℕ, String, Option, Error, ◌⊎◌}

-- The values of `credentials` of cluster/file/read_environments.go.
pub record Credentials : Type 0 where
  pub username : String
  pub password : String

-- A GET request: its URL, the `User-Agent` header and the basic authentication, where it has one.
pub record Request : Type 0 where
  pub url : String
  pub user_agent : String
  pub basic_auth : Option Credentials

-- `HttpClient` of cluster/cluster.go, with the parser of the URL in `http.NewRequest`: an answer is
-- a status and a body, and `fmt` writes the status.
pub record HttpClient (W B : Type 0) : Type 0 where
  pub check_url : String → Option Error
  pub do_request : Request → W → W × (Error ⊎ ℕ × B)
  pub decimal : ℕ → String
