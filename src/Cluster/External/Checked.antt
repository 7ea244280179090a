-- ===== src/Cluster/External/Checked.antt =====
-- cluster/file/external_service.go: `Check` asks every environment, whatever the others answer.
use publish_carousel.Prelude.{
  ℕ, String, ◌≡◌, refl, sym, ap, ◌∙◌, Bool, true, false, ◌&&◌, List, [], ◌∷◌, ◌++◌, Option, none,
  some, ◌⊎◌, inl, inr, Error, if◌then◌else◌, ◌==◌, Bool-cases, Option-cases, is_nil, is_none,
}
use mathlib.Core.List.{append_assoc, append-nil}
use publish_carousel.Cluster.{Request, HttpClient}
use publish_carousel.Cluster.Environments.{ReadEnvironment, compact_errors}
use publish_carousel.Cluster.External.{
  ExternalService, gtg_url_for, gtg_request, get_environments, answered, check_at,
  check_environment, add_error, check_each, check,
}

-- A client that answers each request by a rule, and a world that remembers the requests it sent.
pub record IsRecorded {W B : Type 0} (client : HttpClient W B) (rule : Request → Error ⊎ ℕ × B)
    (log : W → List Request) : Type 0 where
  pub answers : (r : Request) (w : W) → (client.do_request r w).1 ≡ rule r
  pub remembers : (r : Request) (w : W) → log (client.do_request r w).0 ≡ log w ++ r ∷ []

module _ {W B U : Type 0} (service : ExternalService W B U) (rule : Request → Error ⊎ ℕ × B)
    (log : W → List Request) where
  -- The requests that are sent: one for each environment whose URL can be asked.
  abbrev pub requests : List (ReadEnvironment U) → List Request
  requests [] = []
  requests (env ∷ envs) =
      if is_none (service.client.check_url (gtg_url_for service env))
      then gtg_request service env ∷ requests envs
      else requests envs

  abbrev is_200 : Error ⊎ ℕ × B → Bool
  is_200 (inl e) = false
  is_200 (inr (status, body)) = status == 200

  -- Every environment has a URL that can be asked, and answers 200.
  abbrev pub all_good : List (ReadEnvironment U) → Bool
  all_good [] = true
  all_good (env ∷ envs) =
      is_none (service.client.check_url (gtg_url_for service env))
      && is_200 (rule (gtg_request service env))
      && all_good envs

  check_at-answer :
      (g : IsRecorded service.client rule log) (env : ReadEnvironment U) (w : W)
      → (check_at service env w none).1 ≡ answered service env (rule (gtg_request service env))
  check_at-answer g env w = ap (answered service env) (g.answers (gtg_request service env) w)

  is_none-answered :
      (env : ReadEnvironment U) (a : Error ⊎ ℕ × B) → is_none (answered service env a) ≡ is_200 a
  is_none-answered env (inl e) = refl
  is_none-answered env (inr (status, body)) = elim (Bool-cases (status == 200)) [
    | inl e ↦ rw e refl
    | inr e ↦ rw e refl
  ]

  is_nil-add_error :
      (o : Option Error) (errs : List Error)
      → is_nil (add_error o errs) ≡ (is_none o && is_nil errs)
  is_nil-add_error none errs = refl
  is_nil-add_error (some e) errs = refl

  -- What the loop sent, and whether it has an error.
  check_each-good :
      (g : IsRecorded service.client rule log) (envs : List (ReadEnvironment U)) (w : W)
      → (log (check_each service envs w).0 ≡ log w ++ requests envs)
        × (is_nil (check_each service envs w).1 ≡ all_good envs)
  unfolding check_each check_environment
  check_each-good g [] w = (sym (append-nil (log w)), refl)
  check_each-good g (env ∷ envs) w =
      elim (Option-cases (service.client.check_url (gtg_url_for service env))) [
        | inl ask ↦
            let w' = (service.client.do_request (gtg_request service env) w).0 in
            let (sent, good) = check_each-good g envs w' in
            rw (ask, check_at)
              (
                sent
                    ∙ ap (λ l. l ++ requests envs) (g.remembers (gtg_request service env) w)
                    ∙ append_assoc (log w) (gtg_request service env ∷ []) (requests envs),
                is_nil-add_error (check_at service env w none).1 _
                    ∙ ap (λ o. is_none o && is_nil (check_each service envs w').1)
                        (check_at-answer g env w)
                    ∙ ap (λ b. b && is_nil (check_each service envs w').1)
                        (is_none-answered env (rule (gtg_request service env)))
                    ∙ ap (λ b. is_200 (rule (gtg_request service env)) && b) good,
              )
        | inr (e, bad) ↦ rw (bad, check_at) ((check_each-good g envs w).0, refl)
      ]

  is_none-compact_errors :
      (msg : String) (errs : List Error) → is_none (compact_errors msg errs) ≡ is_nil errs
  unfolding compact_errors
  is_none-compact_errors msg [] = refl
  is_none-compact_errors msg (e ∷ errs) = refl

  -- Where the client answers by a rule: `Check` sends one request to each environment whose URL can
  -- be asked, in order and with the environment's credentials, whatever was answered before; and it
  -- gives no error exactly where every environment has such a URL and answers 200.
  pub check-all_good :
      (m : List (String × ReadEnvironment U)) (w : W)
      → IsRecorded service.client rule log
      → (log (check service m w).0 ≡ log w ++ requests (get_environments m))
        × (is_none (check service m w).1 ≡ all_good (get_environments m))
  unfolding check
  check-all_good m w g =
      let (sent, good) = check_each-good g (get_environments m) w in
      (sent, is_none-compact_errors _ (check_each service (get_environments m) w).1 ∙ good)
