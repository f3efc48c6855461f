-- ===== src/Security/Injector.antt =====
-- common/security/resource_injector.go and the resources of security_proxy.go: what is put into the
-- headers of a request.
use nacos_sdk_go.Common.{
  ℕ, ◌||◌, [], ◌∷◌, ◌++◌, Bytes, Dict, insert, codes, bytes_eq, if◌then◌else◌,
}
use nacos_sdk_go.Util.{spliter}
use nacos_sdk_go.Util.Decimal.{itoa}
use nacos_sdk_go.Util.Trim.{has_substring, trim_space}
use nacos_sdk_go.Security.Ram.{RamContext, is_empty}
use nacos_sdk_go.Security.Signature.{Mac, sign, final_signing_key_string_with_default_info}

pub data RequestType : Type 0 where
  config_type naming_type : RequestType

pub record RequestResource : Type 0 where
  pub request_type : RequestType
  pub namespace : Bytes
  pub group : Bytes
  pub resource : Bytes

abbrev pub build_config_resource : Bytes → Bytes → Bytes → RequestResource
build_config_resource tenant group data_id = record {
  request_type = config_type;
  namespace = tenant;
  group = group;
  resource = data_id;
}

abbrev pub build_naming_resource : Bytes → Bytes → Bytes → RequestResource
build_naming_resource namespace group service_name = record {
  request_type = naming_type;
  namespace = namespace;
  group = group;
  resource = service_name;
}

unfoldable pub get_grouped_service_name : RequestResource → Bytes
get_grouped_service_name resource =
    if has_substring spliter resource.resource || is_empty resource.group
    then resource.resource
    else resource.group ++ (spliter ++ resource.resource)

unfoldable pub get_resource_name : RequestResource → Bytes
get_resource_name resource =
    if is_empty resource.namespace
    then resource.group
    else resource.namespace ++ (codes "+" ++ resource.group)

-- The loops over the signatures.
unfoldable pub put_all : Dict Bytes Bytes → Dict Bytes Bytes → Dict Bytes Bytes
put_all [] param = param
put_all ((k, v) ∷ entries) param = put_all entries (insert k v param)

-- The access key, and the token of an ephemeral key.
unfoldable pub put_access_key : Bytes → RamContext → Dict Bytes Bytes → Dict Bytes Bytes
put_access_key field context param =
    let param' = insert field context.access_key param in
    if context.ephemeral_access_key_id
    then insert (codes "Spas-SecurityToken") context.security_token param'
    else param'

-- `now` is the clock in milliseconds, `date` its day.
module _ (mac : Mac) (now : ℕ) (date : Bytes) where
  -- `trySignatureWithV4`: the key to sign with, and the headers.
  unfoldable pub try_signature_with_v4 : RamContext → Dict Bytes Bytes → Bytes × Dict Bytes Bytes
  try_signature_with_v4 context param =
      if is_empty context.signature_region_id then (context.secret_key, param) else (
        final_signing_key_string_with_default_info mac date context.secret_key
            context.signature_region_id,
        insert (codes "signatureVersion") (codes "v4") param,
      )

  unfoldable pub get_sign_data : Bytes → Bytes
  get_sign_data service_name =
      if is_empty service_name then itoa now else itoa now ++ (spliter ++ service_name)

  unfoldable pub naming_signature : RequestResource → Bytes → Dict Bytes Bytes
  unfolding get_grouped_service_name get_sign_data
  naming_signature resource secret_key =
      let sign_data = get_sign_data (get_grouped_service_name resource) in
      (codes "signature", sign mac sign_data secret_key) ∷ (codes "data", sign_data) ∷ []

  unfoldable pub get_sign_headers : Bytes → Bytes → Dict Bytes Bytes
  get_sign_headers resource secret_key =
      let time_stamp = itoa now in
      let text =
        (if is_empty (trim_space resource)
          then time_stamp
          else resource ++ (codes "+" ++ time_stamp)) in
      (codes "Timestamp", time_stamp)
      ∷ (if is_empty secret_key
          then []
          else (codes "Spas-Signature", sign mac text secret_key) ∷ [])

  -- `doInject` of the two injectors.
  unfoldable pub inject_naming : RequestResource → RamContext → Dict Bytes Bytes → Dict Bytes Bytes
  unfolding put_all put_access_key try_signature_with_v4 naming_signature
  inject_naming resource context param =
      let (secret_key, param') =
        try_signature_with_v4 context (put_access_key (codes "ak") context param) in
      put_all (naming_signature resource secret_key) param'

  unfoldable pub inject_config : RequestResource → RamContext → Dict Bytes Bytes → Dict Bytes Bytes
  unfolding put_all put_access_key try_signature_with_v4 get_resource_name get_sign_headers
  inject_config resource context param =
      let (secret_key, param') =
        try_signature_with_v4 context (put_access_key (codes "Spas-AccessKey") context param) in
      put_all (get_sign_headers (get_resource_name resource) secret_key) param'

  unfoldable pub do_inject :
      RequestType → RequestResource → RamContext → Dict Bytes Bytes → Dict Bytes Bytes
  unfolding inject_naming inject_config
  do_inject naming_type resource context param = inject_naming resource context param
  do_inject config_type resource context param = inject_config resource context param
