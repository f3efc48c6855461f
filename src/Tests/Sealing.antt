-- ===== src/Tests/Sealing.antt =====
-- Padding, base64 and the plugins of the key service, at concrete inputs.
use nacos_sdk_go.Common.{
  ◌≡◌, refl, subst, [], ◌∷◌, ◌++◌, Option, none, some, Bytes, arith, codes, insert, bytes_beq,
  bytes_eq, replicate,
}
use nacos_sdk_go.Util.Trim.{trim_space}
use nacos_sdk_go.Config.Filter.{ConfigParam, empty_param, request_type}
use nacos_sdk_go.Config.Base64.{encode_base64, decode_base64}
use nacos_sdk_go.Config.Aes.{Block, pkcs5_padding, block_crypt, aes_ecb_pkcs5_padding_encrypt}
use nacos_sdk_go.Config.Aes.RoundTrip.{IsAes}
use nacos_sdk_go.Config.Encryption.{encryption_filter, get_plugin_by_data_id_prefix}
use nacos_sdk_go.Config.Encryption.RoundTrip.{as_response}
use nacos_sdk_go.Config.Kms.{
  generate_secret_key, kms_encrypt, KmsClient, register_config_encryption_kms_plugins,
}
use nacos_sdk_go.Config.Kms.Reopens.{IsKms}
use nacos_sdk_go.Config.Kms.RoundTrip.{kms-roundtrip}

-- The code's own example of a text in base64.
base64_test : encode_base64 (codes "nacos") ≡ codes "bmFjb3M="
unfolding encode_base64
base64_test = refl

-- A cipher that leaves the blocks as they are.
abbrev plain_block : Block
plain_block = record { block_size = 16; encrypt = λ x. x; decrypt = λ x. x }

plain-IsAes : IsAes plain_block
plain-IsAes = record {
  size = refl;
  length-encrypt = λ x h. h;
  encrypt-IsBytes = λ x h b. b;
  decrypt-encrypt = λ x h b. refl;
}

plain_injective : (b : Block) → some plain_block ≡ some b → plain_block ≡ b
plain_injective b e = cc

abbrev any_key : Bytes → Option Block
any_key key = some plain_block

any_key-IsAes : (key : Bytes) (b : Block) → any_key key ≡ some b → IsAes b
any_key-IsAes key b e = subst IsAes (plain_injective b e) plain-IsAes

-- A key service whose cipher is a mark before the text.
abbrev unmarked : Bytes → Option Bytes
unmarked [] = none
unmarked (c ∷ s) = some s

abbrev marking_kms : KmsClient
marking_kms = record {
  decrypt = unmarked;
  encrypt = λ content key_id. some (b'*' ∷ content);
  generate_data_key = λ key_id key_spec. some (codes "AAAA", codes "*AAAA");
  kms_version = codes "KMSv3";
}

marking-IsKms : IsKms marking_kms
marking-IsKms = record {
  decrypt-encrypt = λ content key_id cipher e. ground (arith, e);
  encrypt-nonempty = λ content key_id e. ground (arith, e);
  decrypt-generated = λ key_id key_spec plain encrypted e. ground (arith, e);
}

abbrev secret : ConfigParam
secret = record empty_param {
  data_id = codes "cipher-kms-aes-128-app";
  group = codes "g";
  content = codes "app=1";
  kms_key_id = codes "key";
  usage_type = request_type;
}

abbrev sealed_secret : ConfigParam
sealed_secret = record secret {
  content = encode_base64 (codes "app=1" ++ replicate 11 11);
  encrypted_data_key = codes "*AAAA";
}

kms-roundtrip_example :
    (opened : ConfigParam) × (encryption_filter
        (register_config_encryption_kms_plugins marking_kms any_key [])
        (as_response sealed_secret)
      ≡ some opened)
    × (opened.content ≡ codes "app=1")
unfolding encryption_filter register_config_encryption_kms_plugins trim_space
    get_plugin_by_data_id_prefix insert bytes_beq generate_secret_key kms_encrypt decode_base64
    aes_ecb_pkcs5_padding_encrypt block_crypt pkcs5_padding encode_base64
kms-roundtrip_example =
    kms-roundtrip any_key marking_kms any_key-IsAes marking-IsKms secret sealed_secret refl
      (omega arith) refl refl
