-- ===== src/Cluster/Environments.antt =====
-- cluster/file/read_environments.go: the environments that are read from, from the texts of their
-- URLs and of their credentials.
-- A map is an association list, in the order in which its keys came in. A `Watcher` is that of
-- file/watcher.go; a parsed URL is a value of `U`.
pub mod Keys
pub mod Pieces
pub mod RoundTrip
use Prim.Native.String.{◌++◌ as append}
use publish_carousel.Prelude.{
  ℕ, String, List, [], ◌∷◌, ◌++◌, map, Option, none, some, ◌⊎◌, inl, inr, Error, if◌then◌else◌,
  concat, text_eq, is_blank,
}
use publish_carousel.Prelude.Split.{split, split_n}
use publish_carousel.Cluster.{Credentials}

pub record ReadEnvironment (U : Type 0) : Type 0 where
  pub name : String
  pub read_url : U
  pub credentials : Option Credentials

-- `m[k] = v` and `m[k]`.
unfoldable pub set_key {ℓ} : {V : Type ℓ} → String → V → List (String × V) → List (String × V)
set_key k v [] = (k, v) ∷ []
set_key k v ((j, u) ∷ m) =
    let rest = set_key k v m in if text_eq j k then (j, v) ∷ m else (j, u) ∷ rest

unfoldable pub get_key {ℓ} : {V : Type ℓ} → String → List (String × V) → Option V
get_key k [] = none
get_key k ((j, v) ∷ m) = if text_eq j k then some v else get_key k m

abbrev pub comma : ℕ
comma = 44

abbrev pub colon : ℕ
colon = 58

-- `compactErrors`
abbrev pub add_lines : String → List Error → String
add_lines msg [] = msg
add_lines msg (e ∷ errs) = add_lines (concat (msg ∷ "\n" ∷ e ∷ [])) errs

unfoldable pub compact_errors : String → List Error → Option Error
compact_errors msg [] = none
compact_errors msg (e ∷ errs) = some (add_lines msg (e ∷ errs))

-- The credentials of one environment, `environment:user:pass`.
abbrev pub CredentialsMap : Type 0
CredentialsMap = List (String × Credentials)

abbrev pub add_credentials : String → List String → CredentialsMap → Error ⊎ CredentialsMap
add_credentials all (env ∷ user ∷ pass ∷ []) m =
    inr (set_key env (record { username = user; password = pass }) m)
add_credentials all pieces m = inl (
    concat (
      "The provided creds string \"" ∷ all
      ∷ "\" is invalid - should be in the format environment1:user:pass,environment2:user:pass"
      ∷ []))

abbrev pub bind_map {ℓ κ} : {A : Type ℓ} {B : Type κ} → (A → Error ⊎ B) → Error ⊎ A → Error ⊎ B
bind_map f (inl e) = inl e
bind_map f (inr m) = f m

unfoldable pub parse_each_credentials :
    String → List String → CredentialsMap → Error ⊎ CredentialsMap
unfolding set_key
parse_each_credentials all [] m = inr m
parse_each_credentials all (creds ∷ rest) m =
    bind_map (parse_each_credentials all rest)
      (if is_blank creds then inr m else add_credentials all (split_n 3 colon creds) m)

unfoldable pub parse_credentials : String → Error ⊎ CredentialsMap
unfolding parse_each_credentials
parse_credentials s = if is_blank s then inr [] else parse_each_credentials s (split comma s) []

module _ {U : Type 0} (parse_url : String → Error ⊎ U) where
  abbrev pub EnvMap : Type 0
  EnvMap = List (String × ReadEnvironment U)

  -- The state of the loop: the map and the errors so far.
  abbrev pub add_parsed :
      CredentialsMap → String → Error ⊎ U → EnvMap × List Error → EnvMap × List Error
  add_parsed creds env (inl e) (m, errs) = (m, errs ++ concat (env ∷ " - " ∷ e ∷ []) ∷ [])
  add_parsed creds env (inr u) (m, errs) =
      (set_key env (record { name = env; read_url = u; credentials = get_key env creds }) m, errs)

  -- An environment that is no pair is the end of the loop.
  abbrev pub add_environment :
      CredentialsMap → String → List String → EnvMap × List Error → Error ⊎ EnvMap × List Error
  add_environment creds s (env ∷ url ∷ []) a = inr (add_parsed creds env (parse_url url) a)
  add_environment creds s pieces a = inl (
      concat (
        "config for environment \"" ∷ s
        ∷ "\" is incorrect - should be in the format environment1:*,environment2:*" ∷ []))

  abbrev finish_errors : EnvMap × List Error → EnvMap × Option Error
  finish_errors (m, errs) = (m, compact_errors "One or more read-urls failed validation" errs)

  abbrev pub go_on_or_leave :
      (EnvMap × List Error → EnvMap × Option Error)
      → EnvMap
      → Error ⊎ EnvMap × List Error
      → EnvMap × Option Error
  go_on_or_leave rest m (inl e) = (m, some e)
  go_on_or_leave rest m (inr a) = rest a

  unfoldable pub parse_each :
      CredentialsMap → List String → EnvMap × List Error → EnvMap × Option Error
  unfolding set_key get_key compact_errors
  parse_each creds [] a = finish_errors a
  parse_each creds (s ∷ rest) a =
      go_on_or_leave (parse_each creds rest) a.0
        (if is_blank s then inr a else add_environment creds s (split_n 2 colon s) a)

  abbrev with_credentials : String → Error ⊎ CredentialsMap → EnvMap × Option Error
  with_credentials urls (inl e) = ([], some e)
  with_credentials urls (inr creds) =
      if is_blank urls then ([], none) else parse_each creds (split comma urls) ([], [])

  -- `parseEnvironments`: a map and an error, both of them where an environment is refused.
  unfoldable pub parse_environments : String → String → EnvMap × Option Error
  unfolding parse_credentials parse_each
  parse_environments urls creds = with_credentials urls (parse_credentials creds)
