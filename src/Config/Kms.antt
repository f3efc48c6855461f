-- ===== src/Config/Kms.antt =====
-- common/encryption/kms_plugins.go: the three plugins of the key service. The texts are UTF-8, so that
-- the conversions of common/encoding between a string and its UTF-8 bytes change nothing.
pub mod Reopens
pub mod RoundTrip
use nacos_sdk_go.Common.{
  ℕ, ◌≡◌, Bool, true, false, ◌||◌, ◌&&◌, List, [], ◌∷◌, Option, none, some, Bytes, Dict, codes,
  length, nat_beq, ◌==◌, bytes_eq, if◌then◌else◌,
}
use nacos_sdk_go.Util.Trim.{trim_space}
use nacos_sdk_go.Config.Base64.{encode_base64, decode_base64}
use nacos_sdk_go.Config.Aes.{
  Block, Crypted, crypted, failed, panicked, aes_ecb_pkcs5_padding_encrypt,
  aes_ecb_pkcs5_padding_decrypt,
}
use nacos_sdk_go.Config.Encryption.{HandlerParam, Plugin, register_plugin}

abbrev pub kms_v1 : Bytes
kms_v1 = codes "KMSv1"

-- The interface KmsClient, with the service behind it; no result is an error.
pub record KmsClient : Type 0 where
  pub decrypt : Bytes → Option Bytes
  pub encrypt : Bytes → Bytes → Option Bytes
  pub generate_data_key : Bytes → Bytes → Option (Bytes × Bytes)
  pub kms_version : Bytes

-- `GetDefaultKMSv1KeyId`.
abbrev pub default_kms_v1_key_id : Bytes
default_kms_v1_key_id = codes "alias/acs/mse"

abbrev pub is_empty : Bytes → Bool
is_empty s = nat_beq (length s) 0

-- `generateDataKey`'s answer, in the parameter; both keys must be there.
abbrev pub generated : HandlerParam → Option (Bytes × Bytes) → Option (HandlerParam × Bytes)
generated param none = none
generated param (some (plain, encrypted)) =
    if is_empty plain || is_empty encrypted
    then none
    else some (record param { plain_data_key = plain; encrypted_data_key = encrypted }, plain)

-- The end of `Encrypt` and of `Decrypt`; a panic gives no result either.
abbrev pub sealed_content : HandlerParam → Crypted → Option HandlerParam
sealed_content param (crypted content) = some record param { content = encode_base64 content }
sealed_content param failed = none
sealed_content param panicked = none

abbrev pub opened_content : HandlerParam → Crypted → Option HandlerParam
opened_content param (crypted content) = some record param { content = content }
opened_content param failed = none
opened_content param panicked = none

module _ (new_cipher : Bytes → Option Block) where
  -- `kmsPlugin.Encrypt`.
  unfoldable pub kms_encrypt : HandlerParam → Option HandlerParam
  kms_encrypt param =
      if is_empty param.plain_data_key || is_empty param.content
      then none
      else elim (decode_base64 param.plain_data_key) [
        | none ↦ none
        | some key ↦
            sealed_content param (aes_ecb_pkcs5_padding_encrypt new_cipher param.content key)
      ]

  -- `kmsPlugin.Decrypt`.
  unfoldable pub kms_decrypt : HandlerParam → Option HandlerParam
  kms_decrypt param =
      if is_empty param.plain_data_key || is_empty param.content
      then none
      else elim (decode_base64 param.plain_data_key) [
        | none ↦ none
        | some key ↦ elim (decode_base64 param.content) [
          | none ↦ none
          | some content ↦
              opened_content param (aes_ecb_pkcs5_padding_decrypt new_cipher content key)
        ]
      ]

module _ (kms_client : KmsClient) where
  unfoldable pub key_id_param_check : Bytes → Option Bytes
  key_id_param_check key_id =
      if is_empty (trim_space key_id)
      then (if kms_client.kms_version == kms_v1 then some default_kms_v1_key_id else none)
      else some key_id

  -- `GenerateSecretKey` of the two AES plugins, which differ in the kind of key.
  unfoldable pub generate_secret_key : Bytes → HandlerParam → Option (HandlerParam × Bytes)
  unfolding key_id_param_check
  generate_secret_key key_spec param = elim (key_id_param_check param.key_id) [
    | none ↦ none
    | some key_id ↦ generated param (kms_client.generate_data_key key_id key_spec)
  ]

  unfoldable pub encrypt_secret_key : HandlerParam → Option (HandlerParam × Bytes)
  unfolding key_id_param_check
  encrypt_secret_key param = elim (key_id_param_check param.key_id) [
    | none ↦ none
    | some key_id ↦
        if is_empty param.plain_data_key
        then none
        else elim (kms_client.encrypt param.plain_data_key key_id) [
          | none ↦ none
          | some encrypted ↦
              if is_empty encrypted
              then none
              else some (record param { encrypted_data_key = encrypted }, encrypted)
        ]
  ]

  unfoldable pub decrypt_secret_key : HandlerParam → Option (HandlerParam × Bytes)
  decrypt_secret_key param =
      if is_empty param.encrypted_data_key
      then none
      else elim (kms_client.decrypt param.encrypted_data_key) [
        | none ↦ none
        | some plain ↦
            if is_empty plain then none else some (record param { plain_data_key = plain }, plain)
      ]

  -- `Encrypt` and `Decrypt` of KmsBasePlugin: the service has the content itself.
  unfoldable pub base_encrypt : HandlerParam → Option HandlerParam
  unfolding key_id_param_check
  base_encrypt param = elim (key_id_param_check param.key_id) [
    | none ↦ none
    | some key_id ↦
        if is_empty param.content then none else elim (kms_client.encrypt param.content key_id) [
          | none ↦ none
          | some content ↦ some record param { content = content }
        ]
  ]

  unfoldable pub base_decrypt : HandlerParam → Option HandlerParam
  base_decrypt param =
      if is_empty param.content then some param else elim (kms_client.decrypt param.content) [
        | none ↦ none
        | some content ↦ some record param { content = content }
      ]

  -- `GenerateSecretKey`, `EncryptSecretKey` and `DecryptSecretKey` of KmsBasePlugin.
  abbrev pub no_secret_key : HandlerParam → Option (HandlerParam × Bytes)
  no_secret_key param = some (param, [])

  abbrev pub kms_base_plugin : Plugin
  kms_base_plugin = record {
    algorithm_name = codes "cipher";
    encrypt = base_encrypt;
    decrypt = base_decrypt;
    generate_secret_key = no_secret_key;
    encrypt_secret_key = no_secret_key;
    decrypt_secret_key = no_secret_key;
  }

  module _ (new_cipher : Bytes → Option Block) where
    abbrev pub aes_plugin : Bytes → Bytes → Plugin
    aes_plugin name key_spec = record {
      algorithm_name = name;
      encrypt = kms_encrypt new_cipher;
      decrypt = kms_decrypt new_cipher;
      generate_secret_key = generate_secret_key key_spec;
      encrypt_secret_key = encrypt_secret_key;
      decrypt_secret_key = decrypt_secret_key;
    }

    abbrev pub kms_aes128_plugin : Plugin
    kms_aes128_plugin = aes_plugin (codes "cipher-kms-aes-128") (codes "AES_128")

    abbrev pub kms_aes256_plugin : Plugin
    kms_aes256_plugin = aes_plugin (codes "cipher-kms-aes-256") (codes "AES_256")

    -- `RegisterConfigEncryptionKmsPlugins`, with the client that was created.
    unfoldable pub register_config_encryption_kms_plugins : Dict Bytes Plugin → Dict Bytes Plugin
    unfolding register_plugin
    register_config_encryption_kms_plugins handler =
        register_plugin
          (register_plugin (register_plugin handler kms_aes128_plugin) kms_aes256_plugin)
          kms_base_plugin
