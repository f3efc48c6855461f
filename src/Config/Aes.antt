-- ===== src/Config/Aes.antt =====
-- common/encryption/aes_ecb_pkcs5padding.go: PKCS5 padding, and a block cipher over whole texts.
pub mod RoundTrip
use nacos_sdk_go.Common.{
  ℕ, suc, zero, ◌+◌, ◌-◌, ◌/◌, ◌%◌, ◌≤◌, ◌<◌, ◌≡◌, Bool, not, List, [], ◌∷◌, ◌++◌, Option, none,
  some, Bytes, length, get_elem?, take, drop, replicate, nat_beq, ltb, if◌then◌else◌,
}

-- What crypto/aes makes of a key: a permutation of blocks.
pub record Block : Type 0 where
  pub block_size : ℕ
  pub encrypt : Bytes → Bytes
  pub decrypt : Bytes → Bytes

-- A result, an error, or a panic.
pub data Crypted : Type 0 where
  crypted : Bytes → Crypted
  failed : Crypted
  panicked : Crypted

-- `byte(padding)` keeps the last 8 bits.
unfoldable pub pkcs5_padding : Bytes → ℕ → Bytes
pkcs5_padding text block_size =
    let padding = block_size - length text % block_size in text ++ replicate padding (padding % 256)

-- The index of the last byte, -1 for no bytes, and the slice panic out of range.
unfoldable pub pkcs5_un_padding : Bytes → Crypted
pkcs5_un_padding orig_data = elim (get_elem? orig_data (length orig_data - 1)) [
  | none ↦ panicked
  | some unpadding ↦
      if ltb (length orig_data) unpadding
      then panicked
      else crypted (take (length orig_data - unpadding) orig_data)
]

-- The loop of `BlockEncrypt` and `BlockDecrypt`, over the number of blocks.
unfoldable pub block_loop : (Bytes → Bytes) → ℕ → ℕ → Bytes → Bytes
block_loop crypt block_size zero src = []
block_loop crypt block_size (suc blocks) src =
    crypt (take block_size src) ++ block_loop crypt block_size blocks (drop block_size src)

unfoldable pub block_crypt : (Bytes → Bytes) → ℕ → Bytes → Crypted
unfolding block_loop
block_crypt crypt block_size src =
    if not (nat_beq (length src % block_size) 0)
    then failed
    else crypted (block_loop crypt block_size (length src / block_size) src)

abbrev pub block_encrypt : Bytes → Block → Crypted
block_encrypt src b = block_crypt b.encrypt b.block_size src

abbrev pub block_decrypt : Bytes → Block → Crypted
block_decrypt src b = block_crypt b.decrypt b.block_size src

abbrev pub un_padded : Crypted → Crypted
un_padded (crypted text) = pkcs5_un_padding text
un_padded failed = failed
un_padded panicked = panicked

-- `aes.NewCipher`, which refuses a key of a wrong length.
module _ (new_cipher : Bytes → Option Block) where
  unfoldable pub aes_ecb_pkcs5_padding_encrypt : Bytes → Bytes → Crypted
  aes_ecb_pkcs5_padding_encrypt plain_content key =
      if nat_beq (length plain_content) 0 then crypted [] else elim (new_cipher key) [
        | none ↦ failed
        | some b ↦ block_encrypt (pkcs5_padding plain_content b.block_size) b
      ]

  unfoldable pub aes_ecb_pkcs5_padding_decrypt : Bytes → Bytes → Crypted
  aes_ecb_pkcs5_padding_decrypt cipher_content key =
      if nat_beq (length cipher_content) 0 then crypted [] else elim (new_cipher key) [
        | none ↦ failed
        | some b ↦ un_padded (block_decrypt cipher_content b)
      ]
