-- ===== src/Config/Kms/RoundTrip.antt =====
-- The configuration filter with the plugins of the key service.
use nacos_sdk_go.Common.{
  ◌≡◌, sym, ap, [], Option, none, some, Bytes, IsBytes, Dict, insert, arith, bytes_beq, bytes_eq,
  codes, Bool-cases, Option-cases, inl, inr,
}
use nacos_sdk_go.Config.Filter.{ConfigParam, request_type}
use nacos_sdk_go.Config.Aes.{Block}
use nacos_sdk_go.Config.Aes.RoundTrip.{IsAes}
use nacos_sdk_go.Config.Encryption.{
  Plugin, register_plugin, get_plugin_by_data_id_prefix, encryption_filter, encryption_handler,
  needs_encryption,
}
use nacos_sdk_go.Config.Encryption.RoundTrip.{Reopens, as_response, encryption_filter-roundtrip}
use nacos_sdk_go.Config.Kms.{KmsClient, register_config_encryption_kms_plugins}
use nacos_sdk_go.Config.Kms.Reopens.{
  IsKms, AllReopen, longest_match-Reopens, aes_plugin-Reopens, base_plugin-Reopens,
}

-- Without a plugin only a content that needs no encryption passes, as it is.
without_plugin :
    (plugins : Dict Bytes Plugin) (param sealed : ConfigParam)
    → param.usage_type ≡ request_type
    → get_plugin_by_data_id_prefix plugins param.data_id ≡ none
    → encryption_filter plugins param ≡ some sealed
    → needs_encryption sealed ≡ needs_encryption param
    → (opened : ConfigParam) × (encryption_filter plugins (as_response sealed) ≡ some opened)
      × (opened.content ≡ param.content)
unfolding encryption_filter encryption_handler
without_plugin plugins param sealed u g e same = elim (Bool-cases (needs_encryption param)) [
  | inl n ↦ ground (arith, n, u, g, e)
  | inr n ↦
      let q : param ≡ sealed = ground (arith, n, e) in
      (as_response sealed, ground (arith, n, same), ap (λ x. x.content) (sym q))
]

module _ (new_cipher : Bytes → Option Block) (client : KmsClient)
    (aes : (key : Bytes) (b : Block) → new_cipher key ≡ some b → IsAes b) (kms : IsKms client) where
  registered_reopen : AllReopen (register_config_encryption_kms_plugins client new_cipher [])
  unfolding register_config_encryption_kms_plugins register_plugin insert bytes_beq
  registered_reopen = (
    aes_plugin-Reopens new_cipher aes client kms (codes "cipher-kms-aes-128") (codes "AES_128"),
    (
      aes_plugin-Reopens new_cipher aes client kms (codes "cipher-kms-aes-256") (codes "AES_256"),
      (base_plugin-Reopens client kms, tt),
    ),
  )

  chosen-Reopens :
      (data_id : Bytes) (plugin : Plugin)
      → get_plugin_by_data_id_prefix
          (register_config_encryption_kms_plugins client new_cipher [])
          data_id
        ≡ some plugin
      → Reopens plugin
  unfolding get_plugin_by_data_id_prefix
  chosen-Reopens data_id plugin e =
      longest_match-Reopens (register_config_encryption_kms_plugins client new_cipher []) data_id 0
        none plugin registered_reopen (λ p q. ground (arith, q)) e

  -- With the plugins of the key service registered, what the filter has made of a published content is
  -- read back as that content, whichever plugin the data id chooses, if the service and AES keep their
  -- promises, and the sealed text is not blank.
  pub kms-roundtrip :
      (param sealed : ConfigParam)
      → param.usage_type ≡ request_type
      → IsBytes param.content
      → encryption_filter (register_config_encryption_kms_plugins client new_cipher []) param
        ≡ some sealed
      → needs_encryption sealed ≡ needs_encryption param
      → (opened : ConfigParam) × (encryption_filter
            (register_config_encryption_kms_plugins client new_cipher [])
            (as_response sealed)
          ≡ some opened)
        × (opened.content ≡ param.content)
  kms-roundtrip param sealed u b e same =
      let plugins = register_config_encryption_kms_plugins client new_cipher [] in
      elim (Option-cases (get_plugin_by_data_id_prefix plugins param.data_id)) [
        | inr (plugin, g) ↦
            encryption_filter-roundtrip plugins plugin param sealed u g
              (chosen-Reopens param.data_id plugin g) b e same
        | inl g ↦ without_plugin plugins param sealed u g e same
      ]
