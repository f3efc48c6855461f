-- ===== src/Security/Providers.antt =====
-- Which provider a login takes, and what it sets.
use nacos_sdk_go.Common.{
  ℕ, suc, zero, ◌+◌, ◌<◌, ◌≡◌, refl, sym, ap, ◌∙◌, true, false, List, [], ◌∷◌, Option, none, some,
  arith, Bytes, get_elem?, Bool-cases, Option-cases, inl, inr,
}
use nacos_sdk_go.Util.Decimal.{itoa, length-itoa}
use nacos_sdk_go.Security.Ram.{RamConfig, CloudConfig, is_empty, get_nacos_properties, Cloud}
use nacos_sdk_go.Security.Ram.Init.{session_expiration}
use nacos_sdk_go.Security.Client.{
  RamCredentialProvider, RamAuthClient, matches_with, first_match, ram_login, init_matched,
}

-- The expiration of a session never comes from the environment: the number of the configuration is
-- used whatever it is, 3600 for 0.
expiration_not_from_env :
    (getenv getenv' : Bytes → Bytes) (r : RamConfig)
    → session_expiration getenv r ≡ session_expiration getenv' r
unfolding session_expiration get_nacos_properties
expiration_not_from_env getenv getenv' r =
    let full : is_empty (itoa r.role_session_expiration) ≡ false =
      ground (arith, length-itoa r.role_session_expiration) in
    rw full refl

module _ (getenv : Bytes → Bytes) (cloud : Cloud) where
  first_match-skips :
      (c : CloudConfig) (ps : List RamCredentialProvider) (start i j : ℕ)
      (q : RamCredentialProvider)
      → first_match getenv cloud c ps start ≡ some i
      → get_elem? ps j ≡ some q
      → start + j < i
      → matches_with getenv cloud c q ≡ false
  unfolding first_match
  first_match-skips c [] start i j q e g h = ground (arith, e)
  first_match-skips c (p ∷ ps) start i zero q e g h = ground (arith, e, g, h)
  first_match-skips c (p ∷ ps) start i (suc j) q e g h =
      ground (arith, e, h, first_match-skips c ps (start + 1) i j q)

  first_match-found :
      (c : CloudConfig) (ps : List RamCredentialProvider) (start i : ℕ)
      → first_match getenv cloud c ps start ≡ some i
      → (k : ℕ) × (p : RamCredentialProvider) × (i ≡ start + k)
        × (get_elem? ps k ≡ some p)
        × (matches_with getenv cloud c p ≡ true)
  unfolding first_match
  first_match-found c [] start i e = ground (arith, e)
  first_match-found c (p ∷ ps) start i e = elim (Bool-cases (matches_with getenv cloud c p)) [
    | inl m ↦ (0, p, ground (arith, m, e), refl, m)
    | inr m ↦
        let (k, q, at, found, fits) = first_match-found c ps (start + 1) i (ground (arith, m, e)) in
        (suc k, q, omega (arith, at), found, fits)
  ]

  init_matched-keeps :
      (rac : RamAuthClient) (o : Option ℕ)
      → (init_matched getenv cloud rac o).0.matched_provider ≡ rac.matched_provider
  unfolding init_matched
  init_matched-keeps rac none = refl
  init_matched-keeps rac (some i) = ground arith

  login_matched :
      (rac : RamAuthClient)
      → rac.matched_provider ≡ none
      → (ram_login getenv cloud rac).0.matched_provider
        ≡ first_match getenv cloud rac.client_config rac.ram_credential_providers 0
  unfolding ram_login
  login_matched rac e =
      elim (Option-cases
        (first_match getenv cloud rac.client_config rac.ram_credential_providers 0)) [
          | inl f ↦ ground (arith, f, e, init_matched-keeps rac rac.matched_provider)
          | inr (i, f) ↦
              ground
                (arith, f, init_matched-keeps (record rac { matched_provider = some i }) (some i))
        ]

  -- The first login takes the provider that matches the configuration and the environment and has no
  -- matching one before it, whether or not its `Init` succeeds.
  login_takes_first :
      (rac : RamAuthClient) (i j : ℕ) (q : RamCredentialProvider)
      → rac.matched_provider ≡ none
      → (ram_login getenv cloud rac).0.matched_provider ≡ some i
      → j < i
      → get_elem? rac.ram_credential_providers j ≡ some q
      → ((p : RamCredentialProvider) × (get_elem? rac.ram_credential_providers i ≡ some p)
          × (matches_with getenv cloud rac.client_config p ≡ true))
        × (matches_with getenv cloud rac.client_config q ≡ false)
  login_takes_first rac i j q n m h g =
      let c = rac.client_config in
      let ps = rac.ram_credential_providers in
      let f : first_match getenv cloud c ps 0 ≡ some i = sym (login_matched rac n) ∙ m in
      let (k, p, at, found, fits) = first_match-found c ps 0 i f in
      let same : k ≡ i = omega (arith, at) in
      (
        (p, ap (get_elem? ps) (sym same) ∙ found, fits),
        first_match-skips c ps 0 i j q f g (omega (arith, h)),
      )
