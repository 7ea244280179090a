-- ===== src/Start/Urls.antt =====
-- native/mongo.go: which texts `CheckMongoURLs` takes.
use publish_carousel.Prelude.{
  ℕ, ◌≤◌, String, ◌≡◌, ◌≢◌, ◌↔◌, refl, ◌⊎◌, inl, inr, List, [], ◌∷◌, Option, none, some, Error,
  text_eq, eq_iff, ltb, length, All, arith, Bool-cases,
}
use publish_carousel.Prelude.Split.{split}
use publish_carousel.Cluster.Environments.{comma}
use publish_carousel.Start.{check_host_port, first_error, check_each_url, check_mongo_urls}

module _ (split_host_port : String → Error ⊎ String × String) (decimal : ℕ → String) where
  -- A host and a port, neither empty.
  abbrev pub HasHostAndPort : String → Type 0
  HasHostAndPort url =
      (host : String) × (port : String) × (split_host_port url ≡ inr (host, port))
      × (host ≢ "")
      × (port ≢ "")

  check_host_port_iff :
      (url : String) (a : Error ⊎ String × String)
      → (check_host_port split_host_port decimal url a ≡ none)
        ↔ ((host : String) × (port : String) × (a ≡ inr (host, port)) × (host ≢ "") × (port ≢ ""))
  check_host_port_iff url (inl e) = (λ h. cc h, λ (host, port, same, nh, np). cc same)
  check_host_port_iff url (inr (h, p)) = (
    λ good. (
      h,
      p,
      refl,
      λ e. ground (arith, eq_iff h "", eq_iff p "", good, e),
      λ e. ground (arith, eq_iff h "", eq_iff p "", good, e),
    ),
    λ (host, port, same, nh, np).
        let eh : h ≡ host = cc same in
        let ep : p ≡ port = cc same in ground (arith, eq_iff h "", eq_iff p "", eh, ep, nh, np),
  )

  first_error-none :
      (o o' : Option Error)
      → (first_error split_host_port decimal o o' ≡ none) ↔ ((o ≡ none) × (o' ≡ none))
  first_error-none (some e) o' = (λ h. cc h, λ (h, k). cc h)
  first_error-none none o' = (λ h. (refl, h), λ (h, k). k)

  check_each_url_iff :
      (urls : List String)
      → (check_each_url split_host_port decimal urls ≡ none) ↔ All HasHostAndPort urls
  unfolding check_each_url
  check_each_url_iff [] = (λ h. tt, λ h. refl)
  check_each_url_iff (url ∷ urls) =
      let first = check_host_port_iff url (split_host_port url) in
      let both =
        first_error-none (check_host_port split_host_port decimal url (split_host_port url))
          (check_each_url split_host_port decimal urls) in
      let rest = check_each_url_iff urls in
      (λ h. (first.0 (both.0 h).0, rest.0 (both.0 h).1), λ (h, hs). both.1 (first.1 h, rest.1 hs))

  -- `CheckMongoURLs` has no error exactly for a text that is not empty, and that the commas part into
  -- at least the expected number of URLs, each of them a host and a port that are not empty.
  check_mongo_urls_iff :
      (provided : String) (expected : ℕ)
      → (check_mongo_urls split_host_port decimal provided expected ≡ none) ↔ (
          (provided ≢ "")
          × (expected ≤ length (split comma provided))
          × All HasHostAndPort (split comma provided))
  unfolding check_mongo_urls
  check_mongo_urls_iff provided expected =
      let each = check_each_url_iff (split comma provided) in
      elim (Bool-cases (text_eq provided "")) [
        | inl e ↦ rw e (λ h. cc h, λ (h, k, l). absurd (h ((eq_iff provided "").0 e)))
        | inr ne ↦ elim (Bool-cases (ltb (length (split comma provided)) expected)) [
          | inl few ↦ rw (ne, few) (λ h. cc h, λ (h, k, l). ground (arith, few, k))
          | inr enough ↦
              rw (ne, enough)
                (
                  λ h. (
                    λ e. ground (arith, eq_iff provided "", ne, e),
                    ground (arith, enough),
                    each.0 h,
                  ),
                  λ (h, k, l). each.1 l,
                )
        ]
      ]
