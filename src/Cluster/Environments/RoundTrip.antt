-- ===== src/Cluster/Environments/RoundTrip.antt =====
-- cluster/file/read_environments.go: environments and credentials that are written out in the
-- format of the configuration are read back by `parseEnvironments`.
use Prim.Native.String.{String}
use publish_carousel.Prelude.{
  ◌≡◌, refl, ap, ◌∙◌, List, [], ◌∷◌, map, Option, none, some, ◌⊎◌, inl, inr, Error, if◌then◌else◌,
  text_eq, eq_iff, All, Bool-cases,
}
use publish_carousel.Prelude.Split.{join}
use publish_carousel.Prelude.Split.Laws.{Lacks, has_code-append}
use publish_carousel.Cluster.{Credentials}
use publish_carousel.Cluster.Environments.{
  ReadEnvironment, set_key, get_key, comma, colon, compact_errors, CredentialsMap, EnvMap,
  parse_each, with_credentials, parse_environments,
}
use publish_carousel.Cluster.Environments.Keys.{
  or_else, last_of, set_all, get_key-set_all, or_else-none,
}
use publish_carousel.Cluster.Environments.Pieces.{
  pair_text, pair_text-is_blank, print_credentials, IsPlainCredentials, split_n-two, Entry,
  environment_piece, print_environments, blank_nothing, split-pieces, is_blank-pieces,
  parse_credentials-print,
}

-- The environment that is read for a name.
abbrev pub environment_of :
    {U : Type 0} → String → Option Credentials → Option (String × U) → Option (ReadEnvironment U)
environment_of name creds none = none
environment_of name creds (some (text, u)) =
    some (record { name = name; read_url = u; credentials = creds })

module _ {U : Type 0} (parse_url : String → Error ⊎ U) where
  abbrev pub IsPlainEntry : Entry U → Type 0
  IsPlainEntry (name, (text, u)) =
      Lacks colon name × Lacks comma (pair_text name text) × (parse_url text ≡ inr u)

  abbrev keyed : CredentialsMap → Entry U → String × ReadEnvironment U
  keyed creds (name, (text, u)) =
      (name, record { name = name; read_url = u; credentials = get_key name creds })

  entries-Lacks :
      (envs : List (Entry U))
      → All IsPlainEntry envs
      → All (λ (e : Entry U). Lacks comma (environment_piece e)) envs
  entries-Lacks [] h = tt
  entries-Lacks (e ∷ envs) ((n, c, u), h) = (c, entries-Lacks envs h)

  parse_each-set_all :
      (creds : CredentialsMap) (envs : List (Entry U)) (m : EnvMap parse_url)
      → All IsPlainEntry envs
      → parse_each parse_url creds (map environment_piece envs) (m, [])
        ≡ (set_all (map (keyed creds) envs) m, none)
  unfolding parse_each compact_errors
  parse_each-set_all creds [] m h = refl
  parse_each-set_all creds ((name, (text, u)) ∷ envs) m ((n, c, p), h) =
      rw (pair_text-is_blank name text, split_n-two name text n, p)
        (parse_each-set_all creds envs (set_key name _ m) h)

  parse_environments-set_all :
      (envs : List (Entry U)) (creds : CredentialsMap)
      → All IsPlainEntry envs
      → with_credentials parse_url (print_environments envs) (inr creds)
        ≡ (set_all (map (keyed creds) envs) [], none)
  unfolding join
  parse_environments-set_all [] creds h = rw blank_nothing refl
  parse_environments-set_all ((name, (text, u)) ∷ envs) creds h =
      rw
        (
          is_blank-pieces environment_piece (name, (text, u)) envs (has_code-append ":" name text),
          split-pieces environment_piece (name, (text, u)) envs
              (entries-Lacks ((name, (text, u)) ∷ envs) h),
        )
        (parse_each-set_all creds ((name, (text, u)) ∷ envs) [] h)

  environment_of-or_else :
      (j : String) (c : Option Credentials) (o p : Option (String × U))
      → or_else (environment_of j c o) (environment_of j c p) ≡ environment_of j c (or_else o p)
  environment_of-or_else j c none p = refl
  environment_of-or_else j c (some o) p = refl

  keyed-environment_of :
      (j name text : String) (u : U) (creds : CredentialsMap)
      → (if text_eq name j
          then some (record { name = name; read_url = u; credentials = get_key name creds })
          else none)
        ≡ environment_of j (get_key j creds) (if text_eq name j then some (text, u) else none)
  keyed-environment_of j name text u creds = elim (Bool-cases (text_eq name j)) [
    | inl e ↦ rw e (
        ap (λ i. some (record { name = i; read_url = u; credentials = get_key i creds }))
          ((eq_iff name j).0 e))
    | inr e ↦ rw e refl
  ]

  last_of-keyed :
      (j : String) (creds : CredentialsMap) (envs : List (Entry U))
      → last_of j (map (keyed creds) envs)
        ≡ environment_of j (get_key j creds) (last_of {V = String × U} j envs)
  last_of-keyed j creds [] = refl
  last_of-keyed j creds ((name, (text, u)) ∷ envs) =
      ap (λ o. or_else o (last_of j (keyed creds (name, (text, u)) ∷ [])))
        (last_of-keyed j creds envs)
      ∙ ap (or_else (environment_of j (get_key j creds) (last_of {V = String × U} j envs)))
          (keyed-environment_of j name text u creds)
      ∙ environment_of-or_else j (get_key j creds) (last_of {V = String × U} j envs)
          (if text_eq name j then some (text, u) else none)

  -- Environments and credentials that are written as `name:url` and `name:user:pass`, separated by
  -- commas, no name or user with a colon, nothing with a comma, and each URL one that can be parsed:
  -- they are read with no error, and a name finds the environment of its last entry, with the
  -- credentials of that name's last entry, and nothing where it has no entry.
  pub parse_environments-print :
      (envs : List (Entry U)) (creds : List (String × Credentials)) (j : String)
      → All IsPlainEntry envs
      → All IsPlainCredentials creds
      → let (m, e) =
          parse_environments parse_url (print_environments envs) (print_credentials creds) in
        (e ≡ none)
        × (get_key j m ≡ environment_of j (last_of j creds) (last_of {V = String × U} j envs))
  unfolding parse_environments get_key
  parse_environments-print envs creds j h k =
      let parsed =
        ap (with_credentials parse_url (print_environments envs)) (parse_credentials-print creds k)
        ∙ parse_environments-set_all envs (set_all creds []) h in
      let found = get_key-set_all j creds [] ∙ or_else-none (last_of j creds) in
      (
        ap (λ (r : EnvMap parse_url × Option Error). r.1) parsed,
        ap (λ (r : EnvMap parse_url × Option Error). get_key j r.0) parsed
            ∙ get_key-set_all j (map (keyed (set_all creds [])) envs) []
            ∙ or_else-none (last_of j (map (keyed (set_all creds [])) envs))
            ∙ last_of-keyed j (set_all creds []) envs
            ∙ ap (λ c. environment_of j c (last_of {V = String × U} j envs)) found,
      )
