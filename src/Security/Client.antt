-- ===== src/Security/Client.antt =====
-- common/security/ram_auth_client.go: the client that signs requests with a cloud account.
use nacos_sdk_go.Common.{
  ℕ, ◌+◌, Bool, true, false, List, [], ◌∷◌, ◌++◌, Option, none, some, Bytes, Dict, get_elem?, set,
  if◌then◌else◌,
}
use nacos_sdk_go.Security.Ram.{
  CloudConfig, RamContext, ram_role_arn, ecs_ram_role, oidc_role_arn, credentials_uri, auto_rotate,
  sts_token, access_key, Provider, new_provider, Cloud, match_provider,
}
use nacos_sdk_go.Security.Ram.Init.{init, get_credentials_for_nacos_client}
use nacos_sdk_go.Security.Injector.{RequestResource, do_inject}
use nacos_sdk_go.Security.Signature.{Mac}

-- A provider of the application's own: whether it matches, whether its `Init` has no error, and its
-- credentials.
pub record CustomProvider : Type 0 where
  pub matches : Bool
  pub inits : Bool
  pub context : RamContext

pub data RamCredentialProvider : Type 0 where
  built_in : Provider → RamCredentialProvider
  custom : CustomProvider → RamCredentialProvider

-- `matched_provider` is the place of the provider among the others, for it is shared with them.
pub record RamAuthClient : Type 0 where
  pub client_config : CloudConfig
  pub ram_credential_providers : List RamCredentialProvider
  pub matched_provider : Option ℕ

unfoldable pub new_ram_auth_client : CloudConfig → RamAuthClient
new_ram_auth_client client_cfg = record {
  client_config = client_cfg;
  ram_credential_providers =
      built_in (new_provider ram_role_arn)
      ∷ built_in (new_provider ecs_ram_role)
      ∷ built_in (new_provider oidc_role_arn)
      ∷ built_in (new_provider credentials_uri)
      ∷ built_in (new_provider auto_rotate)
      ∷ built_in (new_provider sts_token)
      ∷ built_in (new_provider access_key)
      ∷ [];
  matched_provider = none;
}

unfoldable pub new_ram_auth_client_with_provider :
    CloudConfig → Option CustomProvider → RamAuthClient
unfolding new_ram_auth_client
new_ram_auth_client_with_provider client_cfg provider =
    let client = new_ram_auth_client client_cfg in
    elim provider [
      | none ↦ client
      | some p ↦ record client {
        ram_credential_providers = client.ram_credential_providers ++ (custom p ∷ []);
      }
    ]

module _ (getenv : Bytes → Bytes) (cloud : Cloud) where
  unfoldable pub matches_with : CloudConfig → RamCredentialProvider → Bool
  matches_with c (built_in p) = match_provider getenv p.kind c
  matches_with c (custom p) = p.matches

  -- The loop of `Login`.
  unfoldable pub first_match : CloudConfig → List RamCredentialProvider → ℕ → Option ℕ
  unfolding matches_with
  first_match c [] i = none
  first_match c (p ∷ providers) i =
      let rest = first_match c providers (i + 1) in if matches_with c p then some i else rest

  -- `Init`; no result is an error.
  unfoldable pub init_with_config :
      CloudConfig → RamCredentialProvider → Option RamCredentialProvider
  init_with_config c (built_in p) = elim (init getenv cloud p c) [
    | none ↦ none
    | some p' ↦ some (built_in p')
  ]
  init_with_config c (custom p) = if p.inits then some (custom p) else none

  -- The end of `Login`: no result is an error, and false that no provider matches.
  unfoldable pub init_matched : RamAuthClient → Option ℕ → RamAuthClient × Option Bool
  unfolding init_with_config
  init_matched rac none = (rac, some false)
  init_matched rac (some i) = elim (get_elem? rac.ram_credential_providers i) [
    | none ↦ (rac, some false)
    | some p ↦ elim (init_with_config rac.client_config p) [
      | none ↦ (rac, none)
      | some p' ↦ (
        record rac { ram_credential_providers = set rac.ram_credential_providers i p' },
        some true,
      )
    ]
  ]

  unfoldable pub ram_login : RamAuthClient → RamAuthClient × Option Bool
  unfolding first_match init_matched
  ram_login rac = elim (first_match rac.client_config rac.ram_credential_providers 0) [
    | none ↦ init_matched rac rac.matched_provider
    | some i ↦ init_matched (record rac { matched_provider = some i }) (some i)
  ]

  unfoldable pub context_of : RamCredentialProvider → RamContext
  context_of (built_in p) = get_credentials_for_nacos_client getenv cloud p
  context_of (custom p) = p.context

  unfoldable pub matched_context : RamAuthClient → Option RamContext
  unfolding context_of
  matched_context rac = elim rac.matched_provider [
    | none ↦ none
    | some i ↦ elim (get_elem? rac.ram_credential_providers i) [
      | none ↦ none
      | some p ↦ some (context_of p)
    ]
  ]

  module _ (mac : Mac) (now : ℕ) (date : Bytes) where
    unfoldable pub ram_security_info : RamAuthClient → RequestResource → Dict Bytes Bytes
    unfolding matched_context
    ram_security_info rac resource = elim (matched_context rac) [
      | none ↦ []
      | some context ↦ do_inject mac now date resource.request_type resource context []
    ]
