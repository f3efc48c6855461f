-- ===== src/Security/Signed.antt =====
-- What a login with a cloud account makes of the headers of a request.
use nacos_sdk_go.Common.{
  ℕ, ◌≡◌, refl, ap, ◌∙◌, Bool, true, false, [], ◌∷◌, ◌++◌, Option, none, some, arith, Bytes, lookup,
  insert, bytes_beq, bytes_eq, codes, get_elem?,
}
use nacos_sdk_go.Util.Decimal.{itoa}
use nacos_sdk_go.Util.Trim.{trim_space}
use nacos_sdk_go.Security.Ram.{
  CloudConfig, RamContext, is_empty, get_nacos_properties, Kind, sts_token, Cloud, new_provider,
  empty_context, match_provider,
}
use nacos_sdk_go.Security.Ram.Init.{init, credentials_of, get_credentials_for_nacos_client}
use nacos_sdk_go.Security.Signature.{Mac, sign}
use nacos_sdk_go.Security.Injector.{
  RequestType, config_type, naming_type, RequestResource, get_resource_name, put_all,
  put_access_key, try_signature_with_v4, naming_signature, get_sign_headers, inject_naming,
  inject_config, do_inject, get_sign_data, get_grouped_service_name,
}
use nacos_sdk_go.Security.Client.{
  RamCredentialProvider, built_in, CustomProvider, RamAuthClient, matches_with, first_match,
  ram_login, init_matched, init_with_config, context_of, matched_context, ram_security_info,
  new_ram_auth_client_with_provider,
}

module _ (getenv : Bytes → Bytes) (cloud : Cloud) (mac : Mac) (now : ℕ) (date : Bytes) where
  signed_with :
      (rac : RamAuthClient) (resource : RequestResource) (kind : RequestType) (context : RamContext)
      → matched_context getenv cloud rac ≡ some context
      → resource.request_type ≡ kind
      → ram_security_info getenv cloud mac now date rac resource
        ≡ do_inject mac now date kind resource context []
  unfolding ram_security_info
  signed_with rac resource kind context m e = ground (arith, m, e)

  abbrev static_account : Bytes → Bytes → CloudConfig
  static_account key secret = record { access_key = key; secret_key = secret; ram_config = none }

  abbrev static_context : Bytes → Bytes → RamContext
  static_context key secret = record empty_context { access_key = key; secret_key = secret }

  static_login :
      (key secret : Bytes) (provider : Option CustomProvider)
      → is_empty key ≡ false
      → is_empty secret ≡ false
      → let login =
          ram_login getenv cloud
            (new_ram_auth_client_with_provider (static_account key secret) provider) in
        (login.1 ≡ some true)
        × (matched_context getenv cloud login.0 ≡ some (static_context key secret))
  unfolding ram_login new_ram_auth_client_with_provider first_match matches_with match_provider
      get_nacos_properties init_matched init_with_config init matched_context context_of
      get_credentials_for_nacos_client credentials_of
  static_login [] secret provider k s = absurd (ground (arith, k))
  static_login (a ∷ key) [] provider k s = absurd (ground (arith, s))
  static_login (a ∷ key) (b ∷ secret) none k s = (ground arith, ground arith)
  static_login (a ∷ key) (b ∷ secret) (some p) k s = (ground arith, ground arith)

  static_headers :
      (key secret : Bytes) (resource : RequestResource)
      → is_empty secret ≡ false
      → is_empty (trim_space (get_resource_name resource)) ≡ false
      → let info = do_inject mac now date config_type resource (static_context key secret) [] in
        (lookup (codes "Spas-AccessKey") info ≡ some key)
        × (lookup (codes "Spas-Signature") info
            ≡ some (sign mac (get_resource_name resource ++ (codes "+" ++ itoa now)) secret))
  unfolding do_inject inject_config put_access_key try_signature_with_v4 get_sign_headers put_all
      insert lookup bytes_beq
  static_headers key [] resource s n = absurd (ground (arith, s))
  static_headers key (b ∷ secret) resource s n = (ground (arith, n), ground (arith, n))

  abbrev static_login_of : Bytes → Bytes → Option CustomProvider → RamAuthClient × Option Bool
  static_login_of key secret provider =
      ram_login getenv cloud
        (new_ram_auth_client_with_provider (static_account key secret) provider)

  -- An account that is given by an access key and a secret key alone signs a configuration request:
  -- the login succeeds, and the headers name the key and have the signature of the resource and the
  -- time
  -- under the secret, whatever provider the application brings, if the resource's name is not blank.
  pub static_keys_sign :
      (key secret : Bytes) (provider : Option CustomProvider) (resource : RequestResource)
      → resource.request_type ≡ config_type
      → is_empty key ≡ false
      → is_empty secret ≡ false
      → is_empty (trim_space (get_resource_name resource)) ≡ false
      → ((static_login_of key secret provider).1 ≡ some true)
        × (lookup (codes "Spas-AccessKey") (
              ram_security_info getenv cloud mac now date
                (static_login_of key secret provider).0
                resource)
            ≡ some key)
        × (lookup (codes "Spas-Signature") (
              ram_security_info getenv cloud mac now date
                (static_login_of key secret provider).0
                resource)
            ≡ some (sign mac (get_resource_name resource ++ (codes "+" ++ itoa now)) secret))
  static_keys_sign key secret provider resource e k s n =
      let (done, matched) = static_login key secret provider k s in
      let (names, signs) = static_headers key secret resource s n in
      let q =
        signed_with (static_login_of key secret provider).0 resource config_type
          (static_context key secret) matched e in
      (
        done,
        ap (lookup (codes "Spas-AccessKey")) q ∙ names,
        ap (lookup (codes "Spas-Signature")) q ∙ signs,
      )

  fresh_context :
      (kind : Kind) (c : CloudConfig)
      → init getenv cloud (new_provider kind) c ≡ none
      → get_credentials_for_nacos_client getenv cloud (new_provider kind) ≡ empty_context
  unfolding init get_credentials_for_nacos_client credentials_of
  fresh_context sts_token c e = ground (arith, e)
  fresh_context kind c e = refl

  abbrev Nameless : RequestResource → Type 0
  Nameless resource =
      lookup (codes "ak") (do_inject mac now date naming_type resource empty_context []) ≡ some []

  -- The signature of a request to the naming service, made with a secret key.
  abbrev pub naming_sign : RequestResource → Bytes → Bytes
  naming_sign resource secret =
      sign mac (get_sign_data mac now date (get_grouped_service_name resource)) secret

  abbrev SignedEmpty : RequestResource → Type 0
  SignedEmpty resource =
      lookup (codes "signature") (do_inject mac now date naming_type resource empty_context [])
      ≡ some (naming_sign resource [])

  empty_signature : (resource : RequestResource) → SignedEmpty resource
  unfolding do_inject inject_naming put_access_key try_signature_with_v4 naming_signature put_all
      insert lookup bytes_beq
  empty_signature resource = refl

  empty_headers : (resource : RequestResource) → Nameless resource
  unfolding do_inject inject_naming put_access_key try_signature_with_v4 naming_signature put_all
      insert lookup bytes_beq
  empty_headers resource = refl

  failed_login :
      (rac : RamAuthClient) (i : ℕ) (p : RamCredentialProvider)
      → first_match getenv cloud rac.client_config rac.ram_credential_providers 0 ≡ some i
      → get_elem? rac.ram_credential_providers i ≡ some p
      → init_with_config getenv cloud rac.client_config p ≡ none
      → ram_login getenv cloud rac ≡ (record rac { matched_provider = some i }, none)
  unfolding ram_login init_matched
  failed_login rac i p m g e = ground (arith, m, g, e)

  failed_context :
      (rac : RamAuthClient) (i : ℕ) (kind : Kind)
      → get_elem? rac.ram_credential_providers i ≡ some (built_in (new_provider kind))
      → init getenv cloud (new_provider kind) rac.client_config ≡ none
      → matched_context getenv cloud (record rac { matched_provider = some i }) ≡ some empty_context
  unfolding matched_context context_of
  failed_context rac i kind g e = ground (arith, g, fresh_context kind rac.client_config e)

  -- When the provider that a login matches is a built-in one that was not initialised before and cannot
  -- be initialised, the login gives an error, and yet a later request to the naming service goes out
  -- with an empty access key and a signature made with an empty secret key.
  pub failed_login_signs :
      (rac : RamAuthClient) (i : ℕ) (kind : Kind) (resource : RequestResource)
      → resource.request_type ≡ naming_type
      → first_match getenv cloud rac.client_config rac.ram_credential_providers 0 ≡ some i
      → get_elem? rac.ram_credential_providers i ≡ some (built_in (new_provider kind))
      → init getenv cloud (new_provider kind) rac.client_config ≡ none
      → ((ram_login getenv cloud rac).1 ≡ none)
        × (lookup
              (codes "ak")
              (ram_security_info getenv cloud mac now date (ram_login getenv cloud rac).0 resource)
            ≡ some [])
        × (lookup
              (codes "signature")
              (ram_security_info getenv cloud mac now date (ram_login getenv cloud rac).0 resource)
            ≡ some (naming_sign resource []))
  unfolding init_with_config
  failed_login_signs rac i kind resource t m g e =
      let l = failed_login rac i (built_in (new_provider kind)) m g (ground (arith, e)) in
      let failed = record rac { matched_provider = some i } in
      let q =
        signed_with failed resource naming_type empty_context (failed_context rac i kind g e) t in
      (
        ap (λ x. x.1) l,
        ap (λ x. lookup (codes "ak") (ram_security_info getenv cloud mac now date x.0 resource)) l
            ∙ (ap (lookup (codes "ak")) q ∙ empty_headers resource),
        ap
              (λ x.
                lookup (codes "signature")
                  (ram_security_info getenv cloud mac now date x.0 resource))
              l
            ∙ (ap (lookup (codes "signature")) q ∙ empty_signature resource),
      )
