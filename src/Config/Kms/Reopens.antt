-- ===== src/Config/Kms/Reopens.antt =====
-- The plugins of the key service open what they have sealed.
use nacos_sdk_go.Common.{
  ℕ, ◌≡◌, ◌≢◌, refl, ap, ◌∙◌, subst, false, ◌&&◌, [], ◌∷◌, Option, some, Bytes, IsBytes, Dict, All,
  ltb, arith, length, bytes_eq, Bool-cases, Option-cases, inl, inr,
}
use nacos_sdk_go.Config.Base64.{
  encode_base64, decode_base64, decode_base64-encode, length-encode_base64,
}
use nacos_sdk_go.Config.Aes.{
  Block, Crypted, crypted, failed, panicked, aes_ecb_pkcs5_padding_encrypt,
}
use nacos_sdk_go.Config.Aes.RoundTrip.{IsAes, aes-decrypt-encrypt}
use nacos_sdk_go.Config.Encryption.{HandlerParam, Plugin, with_key, longest_match}
use nacos_sdk_go.Util.Trim.{has_substring}
use nacos_sdk_go.Config.Encryption.RoundTrip.{Reopens}
use nacos_sdk_go.Config.Kms.{
  KmsClient, is_empty, sealed_content, kms_encrypt, kms_decrypt, generate_secret_key,
  decrypt_secret_key, base_encrypt, base_decrypt, kms_base_plugin, aes_plugin, key_id_param_check,
}

-- What the key service promises: it decrypts what it has encrypted, and the encrypted key that comes
-- with a generated one.
pub record IsKms (client : KmsClient) : Type 0 where
  pub decrypt-encrypt :
      (content key_id cipher : Bytes)
      → client.encrypt content key_id ≡ some cipher
      → client.decrypt cipher ≡ some content
  pub encrypt-nonempty : (content key_id : Bytes) → client.encrypt content key_id ≢ some []
  pub decrypt-generated :
      (key_id key_spec plain encrypted : Bytes)
      → client.generate_data_key key_id key_spec ≡ some (plain, encrypted)
      → client.decrypt encrypted ≡ some plain

nonempty : (s : Bytes) → s ≢ [] → is_empty s ≡ false
nonempty [] h = absurd (h refl)
nonempty (c ∷ s) h = ground arith

some_injective {ℓ} : {A : Type ℓ} (a b : A) → some a ≡ some b → a ≡ b
some_injective a b e = cc

full_base64 : (s : Bytes) → is_empty s ≡ false → is_empty (encode_base64 s) ≡ false
full_base64 [] h = ground (arith, h)
full_base64 (c ∷ s) h = length-encode_base64 c s

sealed_content_keeps :
    (param sealed : HandlerParam) (c : Crypted)
    → sealed_content param c ≡ some sealed
    → sealed.encrypted_data_key ≡ param.encrypted_data_key
sealed_content_keeps param sealed (crypted content) e = ground (arith, e)
sealed_content_keeps param sealed failed e = ground (arith, e)
sealed_content_keeps param sealed panicked e = ground (arith, e)

module _ (new_cipher : Bytes → Option Block)
    (aes : (key : Bytes) (b : Block) → new_cipher key ≡ some b → IsAes b) where
  -- Under one key a sealed content opens.
  open_sealed :
      (param opener : HandlerParam) (key : Bytes) (b : Block) (sealed : HandlerParam)
      → IsBytes param.content
      → is_empty param.plain_data_key ≡ false
      → is_empty param.content ≡ false
      → decode_base64 param.plain_data_key ≡ some key
      → new_cipher key ≡ some b
      → kms_encrypt new_cipher param ≡ some sealed
      → opener.plain_data_key ≡ param.plain_data_key
      → opener.content ≡ sealed.content
      → kms_decrypt new_cipher opener ≡ some record opener { content = param.content }
  unfolding kms_encrypt kms_decrypt
  open_sealed param opener key b sealed bytes some_key some_content d k e same_key same_content =
      let (cipher, e', cipher_bytes, n, o) =
        aes-decrypt-encrypt new_cipher b key param.content k (aes key b k) bytes in
      let q : encode_base64 cipher ≡ sealed.content =
        ground (arith, some_key, some_content, d, e', e) in
      let full = full_base64 cipher (n ∙ some_content) in
      let back = decode_base64-encode cipher cipher_bytes in
      ground (arith, some_key, same_key, same_content, q, full, d, back, o)

  cipher_of :
      (param sealed : HandlerParam) (key : Bytes)
      → is_empty param.content ≡ false
      → sealed_content param (aes_ecb_pkcs5_padding_encrypt new_cipher param.content key)
        ≡ some sealed
      → (b : Block) × (new_cipher key ≡ some b)
  unfolding aes_ecb_pkcs5_padding_encrypt
  cipher_of param sealed key some_content s = elim (Option-cases (new_cipher key)) [
    | inl k ↦ ground (arith, k, s, some_content)
    | inr found ↦ found
  ]

  -- What a successful encryption tells.
  encrypted_from :
      (param sealed : HandlerParam)
      → kms_encrypt new_cipher param ≡ some sealed
      → (is_empty param.plain_data_key ≡ false)
        × (is_empty param.content ≡ false)
        × (sealed.encrypted_data_key ≡ param.encrypted_data_key)
        × ((key : Bytes) × (decode_base64 param.plain_data_key ≡ some key)
            × ((b : Block) × (new_cipher key ≡ some b)))
  unfolding kms_encrypt
  encrypted_from param sealed e =
      let some_key : is_empty param.plain_data_key ≡ false = ground (arith, e) in
      let some_content : is_empty param.content ≡ false = ground (arith, e) in
      elim (Option-cases (decode_base64 param.plain_data_key)) [
        | inl d ↦ ground (arith, d, e)
        | inr (key, d) ↦
            let c = aes_ecb_pkcs5_padding_encrypt new_cipher param.content key in
            let s : sealed_content param c ≡ some sealed =
              ground (arith, some_key, some_content, d, e) in
            (
              some_key,
              some_content,
              sealed_content_keeps param sealed c s,
              (key, d, cipher_of param sealed key some_content s),
            )
      ]

  module _ (client : KmsClient) (kms : IsKms client) where
    with_generated :
        (key_spec : Bytes) (param sealed : HandlerParam)
        → with_key (generate_secret_key client key_spec param) (kms_encrypt new_cipher)
          ≡ some sealed
        → (plain : Bytes) × (encrypted : Bytes) × (client.decrypt encrypted ≡ some plain)
          × (is_empty plain ≡ false)
          × (is_empty encrypted ≡ false)
          × (kms_encrypt new_cipher
                (record param { plain_data_key = plain; encrypted_data_key = encrypted })
              ≡ some sealed)
    unfolding generate_secret_key
    with_generated key_spec param sealed e =
        elim (Option-cases (key_id_param_check client param.key_id)) [
          | inl k ↦ ground (arith, k, e)
          | inr (key_id, k) ↦ elim (Option-cases (client.generate_data_key key_id key_spec)) [
            | inl g ↦ ground (arith, k, g, e)
            | inr ((plain, encrypted), g) ↦ (
              plain,
              encrypted,
              kms.decrypt-generated key_id key_spec plain encrypted g,
              ground (arith, k, g, e),
              ground (arith, k, g, e),
              ground (arith, k, g, e),
            )
          ]
        ]

    -- A plugin for AES, with a key service that keeps its promises, opens what it has sealed: it meets
    -- what the encryption filter relies on.
    pub aes_plugin-Reopens :
        (name key_spec : Bytes) → Reopens (aes_plugin client new_cipher name key_spec)
    unfolding decrypt_secret_key
    aes_plugin-Reopens name key_spec data_id key_id content sealed bytes h =
        let param : HandlerParam = record {
          data_id = data_id;
          content = content;
          encrypted_data_key = [];
          plain_data_key = [];
          key_id = key_id;
        } in
        let (plain, encrypted, p, np, ne, e) = with_generated key_spec param sealed h in
        let keyed = record param { plain_data_key = plain; encrypted_data_key = encrypted } in
        let (some_key, some_content, same, (key, d, (b, k))) = encrypted_from keyed sealed e in
        let opener : HandlerParam = record {
          data_id = data_id;
          content = sealed.content;
          encrypted_data_key = sealed.encrypted_data_key;
          plain_data_key = plain;
          key_id = [];
        } in
        let o = open_sealed keyed opener key b sealed bytes some_key some_content d k e refl refl in
        (record opener { content = content }, ground (arith, p, np, ne, same, o), refl)

-- The plugin that has the service encrypt the content itself opens what it has sealed.
pub base_plugin-Reopens : (client : KmsClient) → IsKms client → Reopens (kms_base_plugin client)
unfolding base_encrypt base_decrypt
base_plugin-Reopens client kms data_id key_id content sealed bytes h =
    elim (Option-cases (key_id_param_check client key_id)) [
      | inl k ↦ ground (arith, k, h)
      | inr (id, k) ↦ elim (Option-cases (client.encrypt content id)) [
        | inl c ↦ ground (arith, k, c, h)
        | inr (cipher, c) ↦
            let q : sealed.content ≡ cipher = ground (arith, k, c, h) in
            let full : is_empty sealed.content ≡ false =
              ap is_empty q
              ∙ nonempty cipher (λ e. kms.encrypt-nonempty content id (c ∙ ap some e)) in
            let o : client.decrypt sealed.content ≡ some content =
              ap client.decrypt q ∙ kms.decrypt-encrypt content id cipher c in
            (
              record {
                data_id = data_id;
                content = content;
                encrypted_data_key = sealed.encrypted_data_key;
                plain_data_key = [];
                key_id = [];
              },
              ground (arith, full, o),
              refl,
            )
      ]
    ]

abbrev pub AllReopen : Dict Bytes Plugin → Type 0
AllReopen = All (λ entry. Reopens entry.1)

pub longest_match-Reopens :
    (plugins : Dict Bytes Plugin) (data_id : Bytes) (n : ℕ) (best : Option Plugin) (plugin : Plugin)
    → AllReopen plugins
    → ((p : Plugin) → best ≡ some p → Reopens p)
    → longest_match plugins data_id n best ≡ some plugin
    → Reopens plugin
unfolding longest_match
longest_match-Reopens [] data_id n best plugin a b e = b plugin e
longest_match-Reopens ((k, v) ∷ plugins) data_id n best plugin a b e =
    elim (Bool-cases (has_substring k data_id && ltb n (length k))) [
      | inl better ↦
          longest_match-Reopens plugins data_id (length k) (some v) plugin a.1
            (λ p q. subst Reopens (some_injective v p q) a.0) (rw better at e)
      | inr worse ↦ longest_match-Reopens plugins data_id n best plugin a.1 b (rw worse at e)
    ]
