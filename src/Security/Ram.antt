-- ===== src/Security/Ram.antt =====
-- common/security/ram_credential_provider.go: where the credentials of a cloud account come from.
pub mod Init
use nacos_sdk_go.Common.{
  ℕ, Bool, true, false, ◌&&◌, not, [], Option, none, some, Bytes, Dict, lookup, codes, length,
  nat_beq, bytes_eq, if◌then◌else◌,
}
use nacos_sdk_go.Util.Decimal.{itoa, atoi}

-- constant.RamConfig; the expiration is not negative.
pub record RamConfig : Type 0 where
  pub security_token : Bytes
  pub signature_region_id : Bytes
  pub ram_role_name : Bytes
  pub role_arn : Bytes
  pub policy : Bytes
  pub role_session_name : Bytes
  pub role_session_expiration : ℕ
  pub oidc_provider_arn : Bytes
  pub oidc_token_file_path : Bytes
  pub credentials_uri : Bytes
  pub secret_name : Bytes

-- What the providers read of constant.ClientConfig.
pub record CloudConfig : Type 0 where
  pub access_key : Bytes
  pub secret_key : Bytes
  pub ram_config : Option RamConfig

pub record RamContext : Type 0 where
  pub signature_region_id : Bytes
  pub access_key : Bytes
  pub secret_key : Bytes
  pub security_token : Bytes
  pub ephemeral_access_key_id : Bool

abbrev pub empty_context : RamContext
empty_context = record {
  signature_region_id = [];
  access_key = [];
  secret_key = [];
  security_token = [];
  ephemeral_access_key_id = false;
}

-- The types of provider, each with its struct's fields beside the configuration. A credential
-- client is kept as the configuration that it was made from.
pub record CredentialsConfig : Type 0 where
  pub kind : Bytes
  pub access_key_id : Bytes
  pub access_key_secret : Bytes
  pub role_name : Bytes
  pub role_arn : Bytes
  pub role_session_name : Bytes
  pub oidc_provider_arn : Bytes
  pub oidc_token_file_path : Bytes
  pub url : Bytes
  pub policy : Option Bytes
  pub role_session_expiration : Option ℕ

abbrev pub new_config : Bytes → CredentialsConfig
new_config kind = record {
  kind = kind;
  access_key_id = [];
  access_key_secret = [];
  role_name = [];
  role_arn = [];
  role_session_name = [];
  oidc_provider_arn = [];
  oidc_token_file_path = [];
  url = [];
  policy = none;
  role_session_expiration = none;
}

pub data Kind : Type 0 where
  ram_role_arn ecs_ram_role oidc_role_arn credentials_uri auto_rotate sts_token access_key : Kind

-- The fields of all the structs; each kind uses its own.
pub record Provider : Type 0 where
  pub kind : Kind
  pub access_key : Bytes
  pub secret_key : Bytes
  pub security_token : Bytes
  pub secret_name : Bytes
  pub credential_client : Option CredentialsConfig
  pub signature_region_id : Bytes

abbrev pub new_provider : Kind → Provider
new_provider kind = record {
  kind = kind;
  access_key = [];
  secret_key = [];
  security_token = [];
  secret_name = [];
  credential_client = none;
  signature_region_id = [];
}

abbrev pub is_empty : Bytes → Bool
is_empty s = nat_beq (length s) 0

-- What the libraries of the cloud give: whether a client can be made of a configuration, the
-- access key, the secret key and the token that it gets, whether the cache of secrets can be opened,
-- and what a secret holds.
pub record Cloud : Type 0 where
  pub new_credential : CredentialsConfig → Bool
  pub get_credential : CredentialsConfig → Option (Bytes × Bytes × Bytes)
  pub new_secret_cache : Bool
  pub get_secret : Bytes → Option (Dict Bytes Bytes)

-- `os.Getenv`, which gives no bytes for a variable that is not set.
module _ (getenv : Bytes → Bytes) where
  unfoldable pub get_nacos_properties : Bytes → Bytes → Bytes
  get_nacos_properties property env_key = if is_empty property then getenv env_key else property

  abbrev pub access_key_of : CloudConfig → Bytes
  access_key_of c = get_nacos_properties c.access_key (codes "ALIBABA_CLOUD_ACCESS_KEY_ID")

  abbrev pub secret_key_of : CloudConfig → Bytes
  secret_key_of c = get_nacos_properties c.secret_key (codes "ALIBABA_CLOUD_ACCESS_KEY_SECRET")

  abbrev pub region_of : RamConfig → Bytes
  region_of r =
      get_nacos_properties r.signature_region_id (codes "ALIBABA_CLOUD_SIGNATURE_REGION_ID")

  abbrev pub token_of : RamConfig → Bytes
  token_of r = get_nacos_properties r.security_token (codes "ALIBABA_CLOUD_SECURITY_TOKEN")

  abbrev pub role_name_of : RamConfig → Bytes
  role_name_of r = get_nacos_properties r.ram_role_name (codes "ALIBABA_CLOUD_RAM_ROLE_NAME")

  abbrev pub role_arn_of : RamConfig → Bytes
  role_arn_of r = get_nacos_properties r.role_arn (codes "ALIBABA_CLOUD_ROLE_ARN")

  abbrev pub session_name_of : RamConfig → Bytes
  session_name_of r =
      get_nacos_properties r.role_session_name (codes "ALIBABA_CLOUD_ROLE_SESSION_NAME")

  abbrev pub oidc_provider_of : RamConfig → Bytes
  oidc_provider_of r =
      get_nacos_properties r.oidc_provider_arn (codes "ALIBABA_CLOUD_OIDC_PROVIDER_ARN")

  abbrev pub oidc_file_of : RamConfig → Bytes
  oidc_file_of r =
      get_nacos_properties r.oidc_token_file_path (codes "ALIBABA_CLOUD_OIDC_TOKEN_FILE")

  abbrev pub uri_of : RamConfig → Bytes
  uri_of r = get_nacos_properties r.credentials_uri (codes "ALIBABA_CLOUD_CREDENTIALS_URI")

  abbrev pub secret_name_of : RamConfig → Bytes
  secret_name_of r = get_nacos_properties r.secret_name (codes "ALIBABA_CLOUD_SECRET_NAME")

  abbrev pub policy_of : RamConfig → Bytes
  policy_of r = get_nacos_properties r.policy (codes "ALIBABA_CLOUD_POLICY")

  -- `MatchProvider` of each kind.
  abbrev pub match_ram_role_arn : CloudConfig → RamConfig → Bool
  match_ram_role_arn c r =
      is_empty (access_key_of c)
      && (is_empty (secret_key_of c)
          && (not (is_empty (role_arn_of r))
              && (not (is_empty (session_name_of r)) && is_empty (oidc_provider_of r))))

  abbrev pub match_ecs_ram_role : RamConfig → Bool
  match_ecs_ram_role r = not (is_empty (role_name_of r))

  abbrev pub match_oidc_role_arn : RamConfig → Bool
  match_oidc_role_arn r =
      not (is_empty (role_arn_of r))
      && (not (is_empty (session_name_of r))
          && (not (is_empty (oidc_provider_of r)) && not (is_empty (oidc_file_of r))))

  abbrev pub match_credentials_uri : RamConfig → Bool
  match_credentials_uri r = not (is_empty (uri_of r))

  abbrev pub match_auto_rotate : RamConfig → Bool
  match_auto_rotate r = not (is_empty (secret_name_of r))

  abbrev pub match_sts_token : CloudConfig → RamConfig → Bool
  match_sts_token c r =
      not (is_empty (access_key_of c))
      && (not (is_empty (secret_key_of c)) && not (is_empty (token_of r)))

  abbrev pub match_access_key : CloudConfig → Bool
  match_access_key c = not (is_empty (access_key_of c)) && not (is_empty (secret_key_of c))

  unfoldable pub match_ram_config : Kind → CloudConfig → RamConfig → Bool
  match_ram_config ram_role_arn c r = match_ram_role_arn c r
  match_ram_config ecs_ram_role c r = match_ecs_ram_role r
  match_ram_config oidc_role_arn c r = match_oidc_role_arn r
  match_ram_config credentials_uri c r = match_credentials_uri r
  match_ram_config auto_rotate c r = match_auto_rotate r
  match_ram_config sts_token c r = match_sts_token c r
  match_ram_config access_key c r = match_access_key c

  unfoldable pub match_provider : Kind → CloudConfig → Bool
  unfolding match_ram_config
  match_provider access_key c = match_access_key c
  match_provider kind c = elim c.ram_config [ none ↦ false | some r ↦ match_ram_config kind c r ]
