-- ===== src/Cluster/Etcd/SameAsFile.antt =====
-- cluster/etcd against cluster/file: the same environments and the same check, without credentials.
use publish_carousel.Prelude.{
  ℕ, String, ◌≡◌, refl, ap, ◌∙◌, List, [], ◌∷◌, map, Option, none, some, ◌⊎◌, inl, inr, Error,
  text_eq, Bool-cases, is_blank,
}
use publish_carousel.Prelude.Split.{split, split_n}
use publish_carousel.Cluster.{Request}
use publish_carousel.Cluster.Environments as File
use publish_carousel.Cluster.Environments.{
  ReadEnvironment, EnvMap, set_key, get_key, comma, colon, compact_errors, parse_each,
  parse_credentials, parse_environments,
}
use publish_carousel.Cluster.External as External
use publish_carousel.Cluster.External.{
  ExternalService, gtg_url_for, gtg_request, get_environments, add_error, check_environment,
  check_each, check,
}
use publish_carousel.Cluster.Etcd as Etcd
use publish_carousel.Cluster.Etcd.{
  Environment, compact_etcd_errors, Environments, parse_each_etcd, parse_etcd_environments,
  EtcdService, etcd_environments, etcd_gtg_url_for, check_etcd_environment, check_each_etcd,
  check_etcd,
}

-- An environment without credentials.
abbrev pub lift : {U : Type 0} → String × Environment U → String × ReadEnvironment U
lift (k, env) = (k, record { name = env.name; read_url = env.read_url; credentials = none })

set_key-lift :
    {U : Type 0} (k : String) (env : Environment U) (m : List (String × Environment U))
    → set_key k (lift (k, env)).1 (map lift m) ≡ map lift (set_key k env m)
unfolding set_key
set_key-lift k env [] = refl
set_key-lift k env ((j, x) ∷ m) = elim (Bool-cases (text_eq j k)) [
  | inl e ↦ rw e refl
  | inr e ↦ rw e (ap (λ l. lift (j, x) ∷ l) (set_key-lift k env m))
]

compact_same :
    (msg : String) (errs : List Error) → compact_errors msg errs ≡ compact_etcd_errors msg errs
unfolding compact_errors compact_etcd_errors
compact_same msg [] = refl
compact_same msg (e ∷ errs) = refl

module _ {U : Type 0} (parse_url : String → Error ⊎ U) where
  abbrev pub lift_answer :
      Environments parse_url × Option Error → List (String × ReadEnvironment U) × Option Error
  lift_answer (m, e) = (map lift m, e)

  abbrev lift_state : Environments parse_url × List Error → EnvMap parse_url × List Error
  lift_state (m, errs) = (map lift m, errs)

  abbrev lift_step :
      Error ⊎ Environments parse_url × List Error → Error ⊎ EnvMap parse_url × List Error
  lift_step (inl e) = inl e
  lift_step (inr a) = inr (lift_state a)

  add_parsed-lift :
      (env : String) (u : Error ⊎ U) (m : Environments parse_url) (errs : List Error)
      → File.add_parsed parse_url [] env u (map lift m, errs)
        ≡ lift_state (Etcd.add_parsed parse_url env u (m, errs))
  unfolding get_key
  add_parsed-lift env (inl e) m errs = refl
  add_parsed-lift env (inr u) m errs =
      ap (λ l. (l, errs)) (set_key-lift env (record { name = env; read_url = u }) m)

  add_environment-lift :
      (s : String) (pieces : List String) (m : Environments parse_url) (errs : List Error)
      → File.add_environment parse_url [] s pieces (map lift m, errs)
        ≡ lift_step (Etcd.add_environment parse_url s pieces (m, errs))
  add_environment-lift s [] m errs = refl
  add_environment-lift s (env ∷ []) m errs = refl
  add_environment-lift s (env ∷ url ∷ []) m errs =
      ap (λ a. inr a) (add_parsed-lift env (parse_url url) m errs)
  add_environment-lift s (env ∷ url ∷ x ∷ pieces) m errs = refl

  go_on_or_leave-lift :
      (rest : EnvMap parse_url × List Error → EnvMap parse_url × Option Error)
      (rest' : Environments parse_url × List Error → Environments parse_url × Option Error)
      (m : Environments parse_url) (a : Error ⊎ Environments parse_url × List Error)
      → ((m' : Environments parse_url) (errs : List Error)
          → rest (map lift m', errs) ≡ lift_answer (rest' (m', errs)))
      → File.go_on_or_leave parse_url rest (map lift m) (lift_step a)
        ≡ lift_answer (Etcd.go_on_or_leave parse_url rest' m a)
  go_on_or_leave-lift rest rest' m (inl e) h = refl
  go_on_or_leave-lift rest rest' m (inr a) h = h a.0 a.1

  parse_each-lift :
      (l : List String) (m : Environments parse_url) (errs : List Error)
      → parse_each parse_url [] l (map lift m, errs)
        ≡ lift_answer (parse_each_etcd parse_url l (m, errs))
  unfolding parse_each parse_each_etcd
  parse_each-lift [] m errs = ap (λ o. (map lift m, o)) (compact_same _ errs)
  parse_each-lift (s ∷ l) m errs = elim (Bool-cases (is_blank s)) [
    | inl e ↦ rw e (parse_each-lift l m errs)
    | inr e ↦ rw e (
        ap (File.go_on_or_leave parse_url (parse_each parse_url [] l) (map lift m))
          (add_environment-lift s (split_n 2 colon s) m errs)
        ∙ go_on_or_leave-lift (parse_each parse_url [] l) (parse_each_etcd parse_url l) m
            (Etcd.add_environment parse_url s (split_n 2 colon s) (m, errs)) (parse_each-lift l))
  ]

  -- The environments of etcd are those that cluster/file reads of the same text with no credentials.
  pub parse_etcd_environments-file :
      (value : String)
      → parse_environments parse_url value ""
        ≡ lift_answer (parse_etcd_environments parse_url value)
  unfolding parse_environments parse_credentials parse_etcd_environments is_blank
  parse_etcd_environments-file value = elim (Bool-cases (is_blank value)) [
    | inl e ↦ rw e refl
    | inr e ↦ rw e (parse_each-lift (split comma value) [] [])
  ]

-- The service of cluster/file with the same client.
abbrev pub as_file_service : {W B U : Type 0} → EtcdService W B U → ExternalService W B U
as_file_service s = record {
  name = s.name;
  service_name = s.service_name;
  client = s.client;
  url_text = s.url_text;
}

module _ {W B U : Type 0} (service : EtcdService W B U) where
  answered-lift :
      (k : String) (env : Environment U) (a : Error ⊎ ℕ × B)
      → External.answered (as_file_service service) (lift (k, env)).1 a
        ≡ Etcd.answered service env a
  unfolding gtg_url_for etcd_gtg_url_for
  answered-lift k env (inl e) = refl
  answered-lift k env (inr a) = refl

  check_at-lift :
      (k : String) (env : Environment U) (w : W) (o : Option Error)
      → External.check_at (as_file_service service) (lift (k, env)).1 w o
        ≡ Etcd.check_at service env w o
  unfolding gtg_request gtg_url_for etcd_gtg_url_for
  check_at-lift k env w (some e) = refl
  check_at-lift k env w none =
      let r : Request = gtg_request (as_file_service service) (lift (k, env)).1 in
      ap (λ o. ((service.client.do_request r w).0, o))
        (answered-lift k env (service.client.do_request r w).1)

  check_environment-lift :
      (k : String) (env : Environment U) (w : W)
      → check_environment (as_file_service service) (lift (k, env)).1 w
        ≡ check_etcd_environment service env w
  unfolding check_environment check_etcd_environment
  check_environment-lift k env w =
      check_at-lift k env w (service.client.check_url (etcd_gtg_url_for service env))

  check_each-lift :
      (m : List (String × Environment U)) (w : W)
      → check_each (as_file_service service) (get_environments (map lift m)) w
        ≡ check_each_etcd service (etcd_environments m) w
  unfolding check_each check_each_etcd get_environments etcd_environments
  check_each-lift [] w = refl
  check_each-lift ((k, env) ∷ m) w =
      let a = check_etcd_environment service env w in
      ap
        (λ (b : W × Option Error).
          let rest = check_each (as_file_service service) (get_environments (map lift m)) b.0 in
          (rest.0, add_error b.1 rest.1))
        (check_environment-lift k env w)
      ∙ ap (λ (rest : W × List Error). (rest.0, add_error a.1 rest.1)) (check_each-lift m a.0)

  -- `Check` of an etcd service does and answers what that of cluster/file does, with the same
  -- environments and no credentials.
  pub check_etcd-file :
      (m : List (String × Environment U)) (w : W)
      → check (as_file_service service) (map lift m) w ≡ check_etcd service m w
  unfolding check check_etcd
  check_etcd-file m w =
      let msg : String = "Failure occurred while checking GTG for external service." in
      ap (λ (a : W × List Error). (a.0, compact_errors msg a.1)) (check_each-lift m w)
      ∙ ap (λ o. ((check_each_etcd service (etcd_environments m) w).0, o))
          (compact_same msg (check_each_etcd service (etcd_environments m) w).1)
