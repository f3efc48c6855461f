-- ===== src/Tests/Signing.antt =====
-- The credentials of a cloud account, at concrete inputs.
use nacos_sdk_go.Common.{◌≡◌, refl, true, false, [], none, some, Bytes, codes, lookup, bytes_eq}
use nacos_sdk_go.Util.Trim.{trim_space}
use nacos_sdk_go.Util.Decimal.{itoa}
use nacos_sdk_go.Auth
use nacos_sdk_go.Security.Ram.{
  RamConfig, CloudConfig, Cloud, ecs_ram_role, match_provider, get_nacos_properties,
}
use nacos_sdk_go.Security.Ram.Init.{init}
use nacos_sdk_go.Security.Signature.{Mac, sign}
use nacos_sdk_go.Security.Injector.{build_config_resource, build_naming_resource, get_resource_name}
use nacos_sdk_go.Security.Client.{
  new_ram_auth_client, ram_login, first_match, ram_security_info, new_ram_auth_client_with_provider,
}
use nacos_sdk_go.Security.Signed.{static_keys_sign, failed_login_signs, naming_sign}

abbrev no_env : Bytes → Bytes
no_env name = []

abbrev no_cloud : Cloud
no_cloud = record {
  new_credential = λ c. false;
  get_credential = λ c. none;
  new_secret_cache = false;
  get_secret = λ s. none;
}

abbrev toy_mac : Mac
toy_mac = record { hmac_sha1 = λ key text. text; hmac_sha256 = λ key text. text }

abbrev empty_ram : RamConfig
empty_ram = record {
  security_token = [];
  signature_region_id = [];
  ram_role_name = [];
  role_arn = [];
  policy = [];
  role_session_name = [];
  role_session_expiration = 0;
  oidc_provider_arn = [];
  oidc_token_file_path = [];
  credentials_uri = [];
  secret_name = [];
}

abbrev on_ecs : CloudConfig
on_ecs = record {
  access_key = [];
  secret_key = [];
  ram_config = some (record empty_ram { ram_role_name = codes "nacos" });
}

abbrev day : Bytes
day = codes "20260101"

abbrev user : Auth.AuthClient
user = record {
  username = codes "nacos";
  password = codes "nacos";
  access_token = some (codes "t");
  token_ttl = 18000;
  last_refresh_time = 0;
  token_refresh_window = 1800;
  server_cfgs = [];
  sent = [];
}

static_keys_sign_example :
    ((ram_login no_env no_cloud (
        new_ram_auth_client_with_provider
          (record { access_key = codes "id"; secret_key = codes "pw"; ram_config = none })
          none)).1
      ≡ some true)
    × (lookup (codes "Spas-AccessKey") (
          ram_security_info no_env no_cloud toy_mac 5 day
            (ram_login no_env no_cloud (
              new_ram_auth_client_with_provider
                (record { access_key = codes "id"; secret_key = codes "pw"; ram_config = none })
                none)).0
            (build_config_resource [] (codes "g") (codes "app")))
        ≡ some (codes "id"))
    × (lookup (codes "Spas-Signature") (
          ram_security_info no_env no_cloud toy_mac 5 day
            (ram_login no_env no_cloud (
              new_ram_auth_client_with_provider
                (record { access_key = codes "id"; secret_key = codes "pw"; ram_config = none })
                none)).0
            (build_config_resource [] (codes "g") (codes "app")))
        ≡ some (sign toy_mac (codes "g+5") (codes "pw")))
unfolding get_resource_name itoa trim_space
static_keys_sign_example =
    static_keys_sign no_env no_cloud toy_mac 5 day (codes "id") (codes "pw") none
      (build_config_resource [] (codes "g") (codes "app")) refl refl refl refl

failed_login_signs_example :
    ((ram_login no_env no_cloud (new_ram_auth_client on_ecs)).1 ≡ none)
    × (lookup (codes "ak") (
          ram_security_info no_env no_cloud toy_mac 5 day
            (ram_login no_env no_cloud (new_ram_auth_client on_ecs)).0
            (build_naming_resource [] (codes "g") (codes "s")))
        ≡ some [])
    × (lookup (codes "signature") (
          ram_security_info no_env no_cloud toy_mac 5 day
            (ram_login no_env no_cloud (new_ram_auth_client on_ecs)).0
            (build_naming_resource [] (codes "g") (codes "s")))
        ≡ some (
            naming_sign no_env no_cloud toy_mac 5 day
              (build_naming_resource [] (codes "g") (codes "s"))
              []))
unfolding new_ram_auth_client first_match match_provider get_nacos_properties init
failed_login_signs_example =
    failed_login_signs no_env no_cloud toy_mac 5 day (new_ram_auth_client on_ecs) 1 ecs_ram_role
      (build_naming_resource [] (codes "g") (codes "s")) refl refl refl refl
