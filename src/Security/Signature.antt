-- ===== src/Security/Signature.antt =====
-- common/security/signature_util.go: the signatures of requests.
use nacos_sdk_go.Common.{◌++◌, Bytes, codes}
use nacos_sdk_go.Config.Base64.{encode_base64}

-- The message authentication codes of Go's crypto/hmac, of a key and a text.
pub record Mac : Type 0 where
  pub hmac_sha1 : Bytes → Bytes → Bytes
  pub hmac_sha256 : Bytes → Bytes → Bytes

module _ (mac : Mac) where
  -- `Sign` and `signWithHmacSha1Encrypt`; writing to a hash gives no error.
  unfoldable pub sign : Bytes → Bytes → Bytes
  sign text key = encode_base64 (mac.hmac_sha1 key text)

  unfoldable pub first_signing_key : Bytes → Bytes → Bytes
  first_signing_key secret date = mac.hmac_sha256 (codes "aliyun_v4" ++ secret) date

  unfoldable pub region_signing_key : Bytes → Bytes → Bytes → Bytes
  unfolding first_signing_key
  region_signing_key secret date region = mac.hmac_sha256 (first_signing_key secret date) region

  unfoldable pub final_signing_key : Bytes → Bytes → Bytes → Bytes → Bytes
  unfolding region_signing_key
  final_signing_key secret date region product_code =
      mac.hmac_sha256 (mac.hmac_sha256 (region_signing_key secret date region) product_code)
        (codes "aliyun_v4_request")

  unfoldable pub final_signing_key_string : Bytes → Bytes → Bytes → Bytes → Bytes
  unfolding final_signing_key
  final_signing_key_string secret date region product_code =
      encode_base64 (final_signing_key secret date region product_code)

  -- `date` is today's, as `20060102`.
  unfoldable pub final_signing_key_string_with_default_info : Bytes → Bytes → Bytes → Bytes
  unfolding final_signing_key_string
  final_signing_key_string_with_default_info date secret region =
      final_signing_key_string secret date region (codes "mse")
