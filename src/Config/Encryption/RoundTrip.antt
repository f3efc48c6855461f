-- ===== src/Config/Encryption/RoundTrip.antt =====
-- What the encryption filter seals, it opens.
use nacos_sdk_go.Common.{
  ◌≡◌, refl, true, false, [], ◌∷◌, Option, none, some, arith, Bytes, IsBytes, Dict, length, nat_beq,
  bytes_eq, ap, inl, inr, Bool-cases, sym, subst, ◌∙◌,
}
use nacos_sdk_go.Util.Trim.{has_prefix, has_substring, trim_space}
use nacos_sdk_go.Config.Filter.{ConfigParam, request_type, response_type}
use nacos_sdk_go.Config.Encryption.{
  HandlerParam, Plugin, cipher_prefix, decryption_handler, decryption_param, encryption_filter,
  encryption_handler, encryption_param, encryption_param_check, get_plugin_by_data_id_prefix,
  needs_encryption, put_decrypted, put_encrypted, with_key,
}

abbrev pub as_response : ConfigParam → ConfigParam
as_response param = record param { usage_type = response_type }

-- A plugin opens what it has sealed: from the encrypted key that came with the generated one it
-- gets the plain key again, and with it the content, whatever the other fields are.
abbrev pub Reopens : Plugin → Type 0
Reopens plugin =
    (data_id key_id content : Bytes) (sealed : HandlerParam)
    → IsBytes content
    → with_key
        (plugin.generate_secret_key record {
          data_id = data_id;
          content = content;
          encrypted_data_key = [];
          plain_data_key = [];
          key_id = key_id;
        })
        plugin.encrypt
      ≡ some sealed
    → (opened : HandlerParam) × (with_key
          (plugin.decrypt_secret_key record {
            data_id = data_id;
            content = sealed.content;
            encrypted_data_key = sealed.encrypted_data_key;
            plain_data_key = [];
            key_id = [];
          })
          plugin.decrypt
        ≡ some opened)
      × (opened.content ≡ content)

put_encrypted-sealed :
    (param sealed : ConfigParam) (o : Option HandlerParam)
    → put_encrypted param o ≡ some sealed
    → (h : HandlerParam) × (o ≡ some h)
      × (sealed ≡ record param { content = h.content; encrypted_data_key = h.encrypted_data_key })
put_encrypted-sealed param sealed none e = ground arith
put_encrypted-sealed param sealed (some h) e = (h, refl, ground arith)

prefix_found : (p s : Bytes) → has_prefix p s ≡ true → has_substring p s ≡ true
prefix_found p [] h = h
prefix_found p (c ∷ s) h = ground (arith, h)

not_blank-nonempty :
    (s : Bytes) → nat_beq (length (trim_space s)) 0 ≡ false → nat_beq (length s) 0 ≡ false
unfolding trim_space
not_blank-nonempty [] h = h
not_blank-nonempty (c ∷ s) h = ground arith

-- What needs encryption passes the handler's check.
needs-check :
    (param : ConfigParam)
    → needs_encryption param ≡ true
    → (encryption_param_check (encryption_param param) ≡ true)
      × (encryption_param_check (decryption_param param) ≡ true)
needs-check param h =
    let p : has_substring cipher_prefix param.data_id ≡ true =
      prefix_found cipher_prefix param.data_id (ground arith) in
    let q : nat_beq (length param.content) 0 ≡ false =
      not_blank-nonempty param.content (ground arith) in
    (ground (arith, p, q), ground (arith, p, q))

-- The filter on a request and on a response that need it, with the plugin at hand.
filter_request :
    (plugins : Dict Bytes Plugin) (plugin : Plugin) (param : ConfigParam)
    → needs_encryption param ≡ true
    → param.usage_type ≡ request_type
    → get_plugin_by_data_id_prefix plugins param.data_id ≡ some plugin
    → encryption_filter plugins param
      ≡ put_encrypted param
          (with_key (plugin.generate_secret_key (encryption_param param)) plugin.encrypt)
unfolding encryption_filter encryption_handler
filter_request plugins plugin param n u g = ground (arith, n, u, g, (needs-check param n).0)

filter_response :
    (plugins : Dict Bytes Plugin) (plugin : Plugin) (param : ConfigParam)
    → needs_encryption param ≡ true
    → get_plugin_by_data_id_prefix plugins param.data_id ≡ some plugin
    → encryption_filter plugins (as_response param)
      ≡ put_decrypted
          (as_response param)
          (with_key (plugin.decrypt_secret_key (decryption_param param)) plugin.decrypt)
unfolding encryption_filter decryption_handler
filter_response plugins plugin param n g = ground (arith, n, g, (needs-check param n).1)

abbrev seal : ConfigParam → HandlerParam → ConfigParam
seal param h = record param { content = h.content; encrypted_data_key = h.encrypted_data_key }

-- The filter opens the parameter again.
abbrev Opens : Dict Bytes Plugin → ConfigParam → Bytes → Type 0
Opens plugins sealed content =
    (opened : ConfigParam) × (encryption_filter plugins (as_response sealed) ≡ some opened)
    × (opened.content ≡ content)

seal-Opens :
    (plugins : Dict Bytes Plugin) (plugin : Plugin) (param : ConfigParam) (h : HandlerParam)
    → get_plugin_by_data_id_prefix plugins param.data_id ≡ some plugin
    → Reopens plugin
    → IsBytes param.content
    → with_key (plugin.generate_secret_key (encryption_param param)) plugin.encrypt ≡ some h
    → needs_encryption (seal param h) ≡ true
    → Opens plugins (seal param h) param.content
seal-Opens plugins plugin param h g reopens b f n =
    let (opened, d, c) = reopens param.data_id param.kms_key_id param.content h b f in
    let sealed = as_response (seal param h) in
    (
      record sealed { content = opened.content },
      filter_response plugins plugin (seal param h) n g ∙ ap (put_decrypted sealed) d,
      c,
    )

-- A published content that the filter has encrypted is read back by the filter as it was, if the
-- plugin for its data id opens what it has sealed, and the sealed text is not blank.
pub encryption_filter-roundtrip :
    (plugins : Dict Bytes Plugin) (plugin : Plugin) (param sealed : ConfigParam)
    → param.usage_type ≡ request_type
    → get_plugin_by_data_id_prefix plugins param.data_id ≡ some plugin
    → Reopens plugin
    → IsBytes param.content
    → encryption_filter plugins param ≡ some sealed
    → needs_encryption sealed ≡ needs_encryption param
    → (opened : ConfigParam) × (encryption_filter plugins (as_response sealed) ≡ some opened)
      × (opened.content ≡ param.content)
unfolding encryption_filter encryption_handler decryption_handler
encryption_filter-roundtrip plugins plugin param sealed u g reopens b e same =
    elim (Bool-cases (needs_encryption param)) [
      | inr n ↦
          let q : param ≡ sealed = ground (arith, n, e) in
          (as_response sealed, ground (arith, n, same), ap (λ x. x.content) (sym q))
      | inl n ↦
          let (h, f, q) =
            put_encrypted-sealed param sealed _
              (sym (filter_request plugins plugin param n u g) ∙ e) in
          let o =
            seal-Opens plugins plugin param h g reopens b f
              (ap needs_encryption (sym q) ∙ (same ∙ n)) in
          subst (λ x. Opens plugins x param.content) (sym q) o
    ]
