-- ===== src/Config/Encryption.antt =====
-- common/filter/config_encryption_filter.go and common/encryption/handler.go: the encryption of
-- configurations whose data id asks for it.
pub mod RoundTrip
use nacos_sdk_go.Common.{
  ℕ, ◌≡◌, refl, Bool, true, false, ◌&&◌, not, [], ◌∷◌, Option, none, some, arith, Bytes, Dict,
  insert, codes, length, nat_beq, ltb, if◌then◌else◌, bytes_eq, ap, inl, inr, Bool-cases, sym,
  subst, ◌∙◌,
}
use nacos_sdk_go.Util.Trim.{has_prefix, has_substring, trim_space}
use nacos_sdk_go.Config.Filter.{ConfigParam, no_type, request_type, response_type}

pub record HandlerParam : Type 0 where
  pub data_id : Bytes
  pub content : Bytes
  pub encrypted_data_key : Bytes
  pub plain_data_key : Bytes
  pub key_id : Bytes

-- The interface Plugin, the cipher and the key service behind it: the methods change the
-- parameter, or give the secret key, or an error. An encryption sets the content and keeps the
-- plain key; the generation of a key sets the encrypted key.
pub record Plugin : Type 0 where
  pub algorithm_name : Bytes
  pub encrypt : HandlerParam → Option HandlerParam
  pub decrypt : HandlerParam → Option HandlerParam
  pub generate_secret_key : HandlerParam → Option (HandlerParam × Bytes)
  pub encrypt_secret_key : HandlerParam → Option (HandlerParam × Bytes)
  pub decrypt_secret_key : HandlerParam → Option (HandlerParam × Bytes)

abbrev pub cipher_prefix : Bytes
cipher_prefix = codes "cipher-"

-- `RegisterPlugin`, into the map of KmsHandler.
unfoldable pub register_plugin : Dict Bytes Plugin → Plugin → Dict Bytes Plugin
register_plugin plugins plugin = insert plugin.algorithm_name plugin plugins

-- The loop of `getPluginByDataIdPrefix`; of several names of the same length the first in the order of
-- the entries is found, which `range` may change from one call to the next.
unfoldable pub longest_match : Dict Bytes Plugin → Bytes → ℕ → Option Plugin → Option Plugin
longest_match [] data_id matched_count matched_plugin = matched_plugin
longest_match ((k, v) ∷ plugins) data_id matched_count matched_plugin =
    let is_better = has_substring k data_id && ltb matched_count (length k) in
    longest_match plugins data_id (if is_better then length k else matched_count)
      (if is_better then some v else matched_plugin)

unfoldable pub get_plugin_by_data_id_prefix : Dict Bytes Plugin → Bytes → Option Plugin
unfolding longest_match
get_plugin_by_data_id_prefix plugins data_id = longest_match plugins data_id 0 none

-- `encryptionParamCheck`: whether there is no error.
abbrev pub encryption_param_check : HandlerParam → Bool
encryption_param_check param =
    has_substring cipher_prefix param.data_id && not (nat_beq (length param.content) 0)

abbrev pub with_key :
    Option (HandlerParam × Bytes) → (HandlerParam → Option HandlerParam) → Option HandlerParam
with_key none go = none
with_key (some (param, key)) go = go (record param { plain_data_key = key })

unfoldable pub encryption_handler : Dict Bytes Plugin → HandlerParam → Option HandlerParam
encryption_handler plugins param =
    if not (encryption_param_check param)
    then none
    else elim (get_plugin_by_data_id_prefix plugins param.data_id) [
      | none ↦ none
      | some plugin ↦ with_key (plugin.generate_secret_key param) plugin.encrypt
    ]

unfoldable pub decryption_handler : Dict Bytes Plugin → HandlerParam → Option HandlerParam
decryption_handler plugins param =
    if not (encryption_param_check param)
    then none
    else elim (get_plugin_by_data_id_prefix plugins param.data_id) [
      | none ↦ none
      | some plugin ↦ with_key (plugin.decrypt_secret_key param) plugin.decrypt
    ]

-- `paramCheck` of the filter: whether there is no error.
abbrev pub needs_encryption : ConfigParam → Bool
needs_encryption param =
    has_prefix cipher_prefix param.data_id && not (nat_beq (length (trim_space param.content)) 0)

abbrev pub encryption_param : ConfigParam → HandlerParam
encryption_param param = record {
  data_id = param.data_id;
  content = param.content;
  encrypted_data_key = [];
  plain_data_key = [];
  key_id = param.kms_key_id;
}

abbrev pub decryption_param : ConfigParam → HandlerParam
decryption_param param = record {
  data_id = param.data_id;
  content = param.content;
  encrypted_data_key = param.encrypted_data_key;
  plain_data_key = [];
  key_id = [];
}

abbrev put_encrypted : ConfigParam → Option HandlerParam → Option ConfigParam
put_encrypted param none = none
put_encrypted param (some h) =
    some record param { content = h.content; encrypted_data_key = h.encrypted_data_key }

abbrev put_decrypted : ConfigParam → Option HandlerParam → Option ConfigParam
put_decrypted param none = none
put_decrypted param (some h) = some record param { content = h.content }

-- `DoFilter` of DefaultConfigEncryptionFilter.
unfoldable pub encryption_filter : Dict Bytes Plugin → ConfigParam → Option ConfigParam
unfolding encryption_handler decryption_handler
encryption_filter plugins param =
    if not (needs_encryption param) then some param else elim param.usage_type [
      | request_type ↦ put_encrypted param (encryption_handler plugins (encryption_param param))
      | response_type ↦ put_decrypted param (decryption_handler plugins (decryption_param param))
      | no_type ↦ some param
    ]
