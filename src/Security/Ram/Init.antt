-- ===== src/Security/Ram/Init.antt =====
-- common/security/ram_credential_provider.go: `Init` and `GetCredentialsForNacosClient`.
use nacos_sdk_go.Common.{
  ℕ, true, [], Option, none, some, Bytes, Dict, lookup, codes, nat_beq, bytes_eq, if◌then◌else◌,
}
use nacos_sdk_go.Util.Decimal.{itoa, atoi}
use nacos_sdk_go.Security.Ram.{
  RamConfig, CloudConfig, RamContext, empty_context, CredentialsConfig, new_config, Kind, Provider,
  is_empty, Cloud, get_nacos_properties, access_key_of, secret_key_of, region_of, token_of,
  role_name_of, role_arn_of, session_name_of, oidc_provider_of, oidc_file_of, uri_of,
  secret_name_of, policy_of, ram_role_arn, ecs_ram_role, oidc_role_arn, credentials_uri,
  auto_rotate, sts_token, access_key,
}

module _ (getenv : Bytes → Bytes) where
  -- The expiration that `Init` sets. `strconv.Itoa` of the configured number is never empty.
  unfoldable pub session_expiration : RamConfig → Option ℕ
  session_expiration r =
      let text =
        get_nacos_properties getenv (itoa r.role_session_expiration)
          (codes "ALIBABA_CLOUD_ROLE_SESSION_EXPIRATION") in
      if is_empty text then none else elim (atoi text) [
        | none ↦ none
        | some time ↦ some (if nat_beq time 0 then 3600 else time)
      ]

  abbrev pub session_policy : RamConfig → Option Bytes
  session_policy r = if is_empty (policy_of getenv r) then none else some (policy_of getenv r)

  -- The configuration of the credential client, of each kind that has one.
  abbrev pub ram_role_arn_config : CloudConfig → RamConfig → CredentialsConfig
  ram_role_arn_config c r = record (new_config (codes "ram_role_arn")) {
    access_key_id = access_key_of getenv c;
    access_key_secret = secret_key_of getenv c;
    role_arn = role_arn_of getenv r;
    role_session_name = session_name_of getenv r;
    role_session_expiration = session_expiration r;
    policy = session_policy r;
  }

  abbrev pub ecs_ram_role_config : RamConfig → CredentialsConfig
  ecs_ram_role_config r = record (new_config (codes "ecs_ram_role")) {
    role_name = role_name_of getenv r;
  }

  abbrev pub oidc_role_arn_config : RamConfig → CredentialsConfig
  oidc_role_arn_config r = record (new_config (codes "oidc_role_arn")) {
    role_arn = role_arn_of getenv r;
    role_session_name = session_name_of getenv r;
    oidc_provider_arn = oidc_provider_of getenv r;
    oidc_token_file_path = oidc_file_of getenv r;
    role_session_expiration = session_expiration r;
    policy = session_policy r;
  }

  abbrev pub credentials_uri_config : RamConfig → CredentialsConfig
  credentials_uri_config r = record (new_config (codes "credentials_uri")) { url = uri_of getenv r }

  unfoldable pub credentials_config : Kind → CloudConfig → RamConfig → Option CredentialsConfig
  credentials_config ram_role_arn c r = some (ram_role_arn_config c r)
  credentials_config ecs_ram_role c r = some (ecs_ram_role_config r)
  credentials_config oidc_role_arn c r = some (oidc_role_arn_config r)
  credentials_config credentials_uri c r = some (credentials_uri_config r)
  credentials_config auto_rotate c r = none
  credentials_config sts_token c r = none
  credentials_config access_key c r = none

  module _ (cloud : Cloud) where
    -- `Init` of the kinds that ask the cloud's libraries; no result is an error, which leaves the
    -- provider as it was.
    abbrev pub init_with : Provider → RamConfig → CredentialsConfig → Option Provider
    init_with p r config =
        if cloud.new_credential config
        then some
            record p { credential_client = some config; signature_region_id = region_of getenv r }
        else none

    abbrev pub init_auto_rotate : Provider → RamConfig → Option Provider
    init_auto_rotate p r =
        if cloud.new_secret_cache
        then some record p {
          secret_name = secret_name_of getenv r;
          signature_region_id = region_of getenv r;
        }
        else none

    abbrev pub init_sts_token : Provider → CloudConfig → RamConfig → Option Provider
    init_sts_token p c r = some record p {
      access_key = access_key_of getenv c;
      secret_key = secret_key_of getenv c;
      security_token = token_of getenv r;
      signature_region_id = region_of getenv r;
    }

    -- `Init` of the access key, with a region or the empty one.
    abbrev pub init_access_key : Provider → CloudConfig → Bytes → Option Provider
    init_access_key p c region = some record p {
      access_key = access_key_of getenv c;
      secret_key = secret_key_of getenv c;
      signature_region_id = region;
    }

    unfoldable pub init_ram_config : Kind → Provider → CloudConfig → RamConfig → Option Provider
    unfolding credentials_config
    init_ram_config auto_rotate p c r = init_auto_rotate p r
    init_ram_config sts_token p c r = init_sts_token p c r
    init_ram_config access_key p c r = init_access_key p c (region_of getenv r)
    init_ram_config kind p c r = elim (credentials_config kind c r) [
      | none ↦ none
      | some config ↦ init_with p r config
    ]

    -- Without a RamConfig only the access key matches, and is initialised; the code would
    -- dereference nil
    -- for another kind, which `first_match` never gives then.
    unfoldable pub init : Provider → CloudConfig → Option Provider
    unfolding init_ram_config
    init p c = elim c.ram_config [
      | none ↦ init_access_key p c []
      | some r ↦ init_ram_config p.kind p c r
    ]

    abbrev pub of_credential : Provider → Option (Bytes × Bytes × Bytes) → RamContext
    of_credential p none = empty_context
    of_credential p (some (key, secret, token)) = record {
      signature_region_id = p.signature_region_id;
      access_key = key;
      secret_key = secret;
      security_token = token;
      ephemeral_access_key_id = true;
    }

    abbrev pub or_empty : Option Bytes → Bytes
    or_empty none = []
    or_empty (some s) = s

    abbrev pub of_secret : Provider → Option (Dict Bytes Bytes) → RamContext
    of_secret p none = empty_context
    of_secret p (some m) = record empty_context {
      signature_region_id = p.signature_region_id;
      access_key = or_empty (lookup (codes "AccessKeyId") m);
      secret_key = or_empty (lookup (codes "AccessKeySecret") m);
    }

    abbrev pub auto_rotate_credentials : Provider → RamContext
    auto_rotate_credentials p =
        if is_empty p.secret_name
        then empty_context
        else of_secret p (cloud.get_secret p.secret_name)

    abbrev pub sts_token_credentials : Provider → RamContext
    sts_token_credentials p = record {
      signature_region_id = p.signature_region_id;
      access_key = p.access_key;
      secret_key = p.secret_key;
      security_token = p.security_token;
      ephemeral_access_key_id = true;
    }

    abbrev pub access_key_credentials : Provider → RamContext
    access_key_credentials p = record empty_context {
      signature_region_id = p.signature_region_id;
      access_key = p.access_key;
      secret_key = p.secret_key;
    }

    -- `GetCredentialsForNacosClient` of the four kinds with a credential client.
    abbrev pub client_credentials : Provider → RamContext
    client_credentials p = elim p.credential_client [
      | none ↦ empty_context
      | some config ↦ of_credential p (cloud.get_credential config)
    ]

    unfoldable pub credentials_of : Kind → Provider → RamContext
    credentials_of auto_rotate p = auto_rotate_credentials p
    credentials_of sts_token p = sts_token_credentials p
    credentials_of access_key p = access_key_credentials p
    credentials_of kind p = client_credentials p

    unfoldable pub get_credentials_for_nacos_client : Provider → RamContext
    unfolding credentials_of
    get_credentials_for_nacos_client p = credentials_of p.kind p
