-- ===== src/Cluster/Environments/Pieces.antt =====
-- cluster/file/read_environments.go: how the configuration is written, and that the credentials are
-- read back.
use Prim.Native.String.{String, ◌++◌ as append, ◌∷◌ as cons_char}
use publish_carousel.Prelude.{
  ◌≡◌, refl, ap, ◌∙◌, true, false, List, [], ◌∷◌, map, inr, All, is_blank, is_space,
}
use publish_carousel.Prelude.Split.{split, split_n, join, has_code}
use publish_carousel.Prelude.Split.Laws.{
  Lacks, split-join, split_n-append, has_code-append, has_code-join, is_blank-has_code,
}
use publish_carousel.Cluster.{Credentials}
use publish_carousel.Cluster.Environments.{
  set_key, comma, colon, CredentialsMap, parse_each_credentials, parse_credentials,
}
use publish_carousel.Cluster.Environments.Keys.{set_all}

-- `name:rest`
abbrev pub pair_text : String → String → String
pair_text name rest = append name (cons_char ":" rest)

pub pair_text-is_blank : (name rest : String) → is_blank (pair_text name rest) ≡ false
unfolding is_space
pair_text-is_blank name rest =
    is_blank-has_code colon (pair_text name rest) refl (has_code-append ":" name rest)

-- A list of credentials as a text, and when it can be one.
abbrev pub credentials_piece : String × Credentials → String
credentials_piece (name, c) = pair_text name (pair_text c.username c.password)

abbrev pub print_credentials : List (String × Credentials) → String
print_credentials creds = join "," (map credentials_piece creds)

abbrev pub IsPlainCredentials : String × Credentials → Type 0
IsPlainCredentials (name, c) =
    Lacks colon name × Lacks colon c.username × Lacks comma (credentials_piece (name, c))

pub split_n-two :
    (name rest : String)
    → Lacks colon name
    → split_n 2 colon (pair_text name rest) ≡ name ∷ rest ∷ []
unfolding split_n
split_n-two name rest h = split_n-append 0 ":" name rest h

split_n-three :
    (name user pass : String)
    → Lacks colon name
    → Lacks colon user
    → split_n 3 colon (pair_text name (pair_text user pass)) ≡ name ∷ user ∷ pass ∷ []
split_n-three name user pass h k =
    split_n-append 1 ":" name (pair_text user pass) h ∙ ap (λ l. name ∷ l) (split_n-two user pass k)

parse_each_credentials-set_all :
    (all : String) (creds : List (String × Credentials)) (m : CredentialsMap)
    → All IsPlainCredentials creds
    → parse_each_credentials all (map credentials_piece creds) m ≡ inr (set_all creds m)
unfolding parse_each_credentials
parse_each_credentials-set_all all [] m h = refl
parse_each_credentials-set_all all ((name, c) ∷ creds) m ((n, u, p), h) =
    rw
      (
        pair_text-is_blank name (pair_text c.username c.password),
        split_n-three name c.username c.password n u,
      )
      (parse_each_credentials-set_all all creds (set_key name c m) h)

-- An environment to write: its name, the text of its URL, and the URL.
abbrev pub Entry : Type 0 → Type 0
Entry U = String × (String × U)

abbrev pub environment_piece : {U : Type 0} → Entry U → String
environment_piece (name, (text, u)) = pair_text name text

abbrev pub print_environments : {U : Type 0} → List (Entry U) → String
print_environments envs = join "," (map environment_piece envs)

pub blank_nothing : is_blank "" ≡ true
unfolding is_blank
blank_nothing = refl

-- A text that is written from pieces with a colon is not blank, and splits into the pieces.
module _ {ℓ} {A : Type ℓ} (piece : A → String) where
  pieces-Lacks : (l : List A) → All (λ x. Lacks comma (piece x)) l → All (Lacks comma) (map piece l)
  pieces-Lacks [] h = tt
  pieces-Lacks (x ∷ l) (h, hs) = (h, pieces-Lacks l hs)

  pub split-pieces :
      (x : A) (l : List A)
      → All (λ y. Lacks comma (piece y)) (x ∷ l)
      → split comma (join "," (map piece (x ∷ l))) ≡ map piece (x ∷ l)
  split-pieces x l (h, hs) = split-join "," (piece x) (map piece l) (h, pieces-Lacks l hs)

  pub is_blank-pieces :
      (x : A) (l : List A)
      → has_code colon (piece x) ≡ true
      → is_blank (join "," (map piece (x ∷ l))) ≡ false
  unfolding is_space
  is_blank-pieces x l h =
      is_blank-has_code colon (join "," (map piece (x ∷ l))) refl
        (has_code-join colon "," (piece x) (map piece l) h)

credentials-Lacks :
    (creds : List (String × Credentials))
    → All IsPlainCredentials creds
    → All (λ c. Lacks comma (credentials_piece c)) creds
credentials-Lacks [] h = tt
credentials-Lacks (c ∷ creds) ((n, u, p), h) = (p, credentials-Lacks creds h)

pub parse_credentials-print :
    (creds : List (String × Credentials))
    → All IsPlainCredentials creds
    → parse_credentials (print_credentials creds) ≡ inr (set_all creds [])
unfolding parse_credentials join
parse_credentials-print [] h = rw blank_nothing refl
parse_credentials-print ((name, c) ∷ creds) h =
    rw
      (
        is_blank-pieces credentials_piece (name, c) creds
            (has_code-append ":" name (pair_text c.username c.password)),
        split-pieces credentials_piece (name, c) creds (credentials-Lacks ((name, c) ∷ creds) h),
      )
      (parse_each_credentials-set_all (print_credentials ((name, c) ∷ creds)) ((name, c) ∷ creds) []
        h)
