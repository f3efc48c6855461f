-- ===== src/Config/Aes/RoundTrip.antt =====
-- What is encrypted with padding is decrypted again.
use nacos_sdk_go.Common.{
  ℕ, suc, zero, ◌+◌, ◌-◌, ◌*◌, ◌/◌, ◌%◌, ◌≤◌, ◌<◌, ◌≡◌, refl, sym, ap, subst, ◌∙◌, true, false, [],
  ◌∷◌, ◌++◌, ◌↔◌, Option, some, arith, Bytes, IsBytes, All-append, length, get_elem?, take, drop,
  replicate, nat_beq, length-append, length-replicate, take-append_length, drop-append_length,
  take-append-drop, length-take-le, length-drop,
}
use nacos_sdk_go.Config.Aes.{
  Block, crypted, panicked, pkcs5_padding, pkcs5_un_padding, block_loop, block_crypt,
  aes_ecb_pkcs5_padding_encrypt, aes_ecb_pkcs5_padding_decrypt, un_padded,
}

-- The documented behaviour of crypto/aes: blocks of 16 bytes, and a decryption that undoes the
-- encryption.
pub record IsAes (b : Block) : Type 0 where
  pub size : b.block_size ≡ 16
  pub length-encrypt : (x : Bytes) → length x ≡ 16 → length (b.encrypt x) ≡ 16
  pub encrypt-IsBytes : (x : Bytes) → length x ≡ 16 → IsBytes x → IsBytes (b.encrypt x)
  pub decrypt-encrypt : (x : Bytes) → length x ≡ 16 → IsBytes x → b.decrypt (b.encrypt x) ≡ x

take_first : (n : ℕ) (xs ys : Bytes) → length xs ≡ n → take n (xs ++ ys) ≡ xs
take_first n xs ys e = subst (λ m. take m (xs ++ ys) ≡ xs) e (take-append_length xs ys)

drop_first : (n : ℕ) (xs ys : Bytes) → length xs ≡ n → drop n (xs ++ ys) ≡ ys
drop_first n xs ys e = subst (λ m. drop m (xs ++ ys) ≡ ys) e (drop-append_length xs ys)

take-IsBytes : (n : ℕ) (xs : Bytes) → IsBytes xs → IsBytes (take n xs)
take-IsBytes zero xs h = tt
take-IsBytes (suc n) [] h = tt
take-IsBytes (suc n) (x ∷ xs) h = (h.0, take-IsBytes n xs h.1)

drop-IsBytes : (n : ℕ) (xs : Bytes) → IsBytes xs → IsBytes (drop n xs)
drop-IsBytes zero xs h = h
drop-IsBytes (suc n) [] h = tt
drop-IsBytes (suc n) (x ∷ xs) h = drop-IsBytes n xs h.1

replicate-IsBytes : (n c : ℕ) → c < 256 → IsBytes (replicate n c)
replicate-IsBytes zero c h = tt
replicate-IsBytes (suc n) c h = (h, replicate-IsBytes n c h)

empty_of : (src : Bytes) → length src ≡ 0 → src ≡ []
empty_of [] e = refl
empty_of (c ∷ src) e = absurd (omega (arith, e))

get_elem?-replicate_last : (k c : ℕ) → get_elem? (replicate (suc k) c) k ≡ some c
get_elem?-replicate_last zero c = refl
get_elem?-replicate_last (suc k) c = get_elem?-replicate_last k c

get_elem?-append_length :
    (xs ys : Bytes) (i : ℕ) → get_elem? (xs ++ ys) (length xs + i) ≡ get_elem? ys i
get_elem?-append_length [] ys i = ap (get_elem? ys) (omega arith)
get_elem?-append_length (x ∷ xs) ys i =
    let e : length (x ∷ xs) + i ≡ suc (length xs + i) = omega arith in
    ap (get_elem? (x ∷ (xs ++ ys))) e ∙ get_elem?-append_length xs ys i

-- The last byte of the padding is its length.
last-padded :
    (text : Bytes) (p : ℕ)
    → 0 < p
    → get_elem? (text ++ replicate p p) (length (text ++ replicate p p) - 1) ≡ some p
last-padded text p h =
    let k = p - 1 in
    let e : p ≡ suc k = omega (arith, h) in
    let n : length (text ++ replicate p p) - 1 ≡ length text + k =
      omega (arith, h, length-append text (replicate p p), length-replicate p p) in
    ap (get_elem? (text ++ replicate p p)) n
    ∙ (get_elem?-append_length text (replicate p p) k
        ∙ (ap (λ m. get_elem? (replicate m p) k) e ∙ get_elem?-replicate_last k p))

un_padding_of :
    (orig_data : Bytes) (unpadding : ℕ)
    → get_elem? orig_data (length orig_data - 1) ≡ some unpadding
    → unpadding ≤ length orig_data
    → pkcs5_un_padding orig_data ≡ crypted (take (length orig_data - unpadding) orig_data)
unfolding pkcs5_un_padding
un_padding_of orig_data unpadding e h = ground (arith, e, h)

-- Taking off the padding gives the text back, the empty one too.
pub un_padding-padding : (text : Bytes) → pkcs5_un_padding (pkcs5_padding text 16) ≡ crypted text
unfolding pkcs5_padding
un_padding-padding text =
    let p = 16 - length text % 16 in
    let small : p % 256 ≡ p = omega arith in
    let padded = text ++ replicate p p in
    let sized : length padded ≡ length text + p =
      omega (arith, length-append text (replicate p p), length-replicate p p) in
    let front : length text ≡ length padded - p = omega (arith, sized) in
    ap (λ n. pkcs5_un_padding (text ++ replicate p n)) small
    ∙ (un_padding_of padded p (last-padded text p (omega arith)) (omega (arith, sized))
        ∙ ap crypted (take_first (length padded - p) text (replicate p p) front))

crypt_blocks :
    (crypt : Bytes → Bytes) (n : ℕ) (src : Bytes)
    → length src ≡ n * 16
    → block_crypt crypt 16 src ≡ crypted (block_loop crypt 16 n src)
unfolding block_crypt
crypt_blocks crypt n src e =
    let full : nat_beq (length src % 16) 0 ≡ true = ground (arith, e) in
    let blocks : length src / 16 ≡ n = omega (arith, e) in rw (full, blocks) refl

module _ (b : Block) (aes : IsAes b) where
  block_of : (n : ℕ) (src : Bytes) → length src ≡ suc n * 16 → length (take 16 src) ≡ 16
  block_of n src e = length-take-le 16 src (omega (arith, e))

  rest_of : (n : ℕ) (src : Bytes) → length src ≡ suc n * 16 → length (drop 16 src) ≡ n * 16
  rest_of n src e = omega (arith, e, length-drop 16 src)

  length-block_loop :
      (n : ℕ) (src : Bytes) → length src ≡ n * 16 → length (block_loop b.encrypt 16 n src) ≡ n * 16
  unfolding block_loop
  length-block_loop zero src e = omega arith
  length-block_loop (suc n) src e = omega (
    arith,
    length-append (b.encrypt (take 16 src)) (block_loop b.encrypt 16 n (drop 16 src)),
    aes.length-encrypt (take 16 src) (block_of n src e),
    length-block_loop n (drop 16 src) (rest_of n src e),
  )

  block_loop-IsBytes :
      (n : ℕ) (src : Bytes)
      → length src ≡ n * 16
      → IsBytes src
      → IsBytes (block_loop b.encrypt 16 n src)
  unfolding block_loop
  block_loop-IsBytes zero src e h = tt
  block_loop-IsBytes (suc n) src e h =
      All-append (λ c. c < 256) (b.encrypt (take 16 src)) (block_loop b.encrypt 16 n (drop 16 src))
        (aes.encrypt-IsBytes (take 16 src) (block_of n src e) (take-IsBytes 16 src h))
        (block_loop-IsBytes n (drop 16 src) (rest_of n src e) (drop-IsBytes 16 src h))

  loop-decrypt-encrypt :
      (n : ℕ) (src : Bytes)
      → length src ≡ n * 16
      → IsBytes src
      → block_loop b.decrypt 16 n (block_loop b.encrypt 16 n src) ≡ src
  unfolding block_loop
  loop-decrypt-encrypt zero src e h = sym (empty_of src e)
  loop-decrypt-encrypt (suc n) src e h =
      let block = take 16 src in
      let rest = block_loop b.encrypt 16 n (drop 16 src) in
      let sized = aes.length-encrypt block (block_of n src e) in
      rw
        (
          take_first 16 (b.encrypt block) rest sized,
          drop_first 16 (b.encrypt block) rest sized,
          aes.decrypt-encrypt block (block_of n src e) (take-IsBytes 16 src h),
          loop-decrypt-encrypt n (drop 16 src) (rest_of n src e) (drop-IsBytes 16 src h),
        )
        (take-append-drop 16 src)

  padded_size : (text : Bytes) → length (pkcs5_padding text 16) ≡ (length text / 16 + 1) * 16
  unfolding pkcs5_padding
  padded_size text = omega (
    arith,
    length-append text (replicate (16 - length text % 16) ((16 - length text % 16) % 256)),
    length-replicate (16 - length text % 16) ((16 - length text % 16) % 256),
  )

  padding-IsBytes : (text : Bytes) → IsBytes text → IsBytes (pkcs5_padding text 16)
  unfolding pkcs5_padding
  padding-IsBytes text h =
      let p = 16 - length text % 16 in
      All-append (λ c. c < 256) text (replicate p (p % 256)) h
        (replicate-IsBytes p (p % 256) (omega arith))

  aes_of_block :
      (text : Bytes)
      → IsBytes text
      → (sealed : Bytes) × (block_crypt b.encrypt b.block_size (pkcs5_padding text b.block_size)
          ≡ crypted sealed)
        × (0 < length sealed)
        × IsBytes sealed
        × (un_padded (block_crypt b.decrypt b.block_size sealed) ≡ crypted text)
  aes_of_block text h =
      let n = length text / 16 + 1 in
      let padded = pkcs5_padding text 16 in
      let size = padded_size text in
      let sealed = block_loop b.encrypt 16 n padded in
      let sealed_size = length-block_loop n padded size in
      (
        sealed,
        rw aes.size (crypt_blocks b.encrypt n padded size),
        omega (arith, sealed_size),
        block_loop-IsBytes n padded size (padding-IsBytes text h),
        rw aes.size (
            ap un_padded (crypt_blocks b.decrypt n sealed sealed_size)
            ∙ (ap pkcs5_un_padding (loop-decrypt-encrypt n padded size (padding-IsBytes text h))
                ∙ un_padding-padding text)),
      )

-- What `AesEcbPkcs5PaddingEncrypt` makes of any text, the empty one included, is no error, and
-- `AesEcbPkcs5PaddingDecrypt` under the same key gives the text back.
pub aes-decrypt-encrypt :
    (new_cipher : Bytes → Option Block) (b : Block) (key text : Bytes)
    → new_cipher key ≡ some b
    → IsAes b
    → IsBytes text
    → (sealed : Bytes) × (aes_ecb_pkcs5_padding_encrypt new_cipher text key ≡ crypted sealed)
      × IsBytes sealed
      × (nat_beq (length sealed) 0 ≡ nat_beq (length text) 0)
      × (aes_ecb_pkcs5_padding_decrypt new_cipher sealed key ≡ crypted text)
unfolding aes_ecb_pkcs5_padding_encrypt aes_ecb_pkcs5_padding_decrypt
aes-decrypt-encrypt new_cipher b key [] k aes h = ([], refl, tt, refl, refl)
aes-decrypt-encrypt new_cipher b key (c ∷ text) k aes h =
    let (sealed, e, n, s, d) = aes_of_block b aes (c ∷ text) h in
    let some_text : nat_beq (length (c ∷ text)) 0 ≡ false = ground arith in
    let some_sealed : nat_beq (length sealed) 0 ≡ false = ground (arith, n) in
    (sealed, rw (some_text, k) e, s, some_sealed ∙ sym some_text, rw (some_sealed, k) d)

-- Taking off a padding panics exactly when there are no bytes, or the last one is more than their
-- number: no other bytes of a wrong padding are noticed.
un_padding_panics :
    (orig_data : Bytes) (last : ℕ)
    → (pkcs5_un_padding [] ≡ panicked)
      × ((pkcs5_un_padding (orig_data ++ last ∷ []) ≡ panicked) ↔ (length orig_data + 1 < last))
unfolding pkcs5_un_padding
un_padding_panics orig_data last =
    let data' = orig_data ++ last ∷ [] in
    let n : length data' ≡ length orig_data + 1 =
      omega (arith, length-append orig_data (last ∷ [])) in
    let i : length data' - 1 ≡ length orig_data + 0 = omega (arith, n) in
    let e : get_elem? data' (length data' - 1) ≡ some last =
      ap (get_elem? data') i ∙ get_elem?-append_length orig_data (last ∷ []) 0 in
    (refl, ground (arith, e, n))
