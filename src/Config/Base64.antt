-- ===== src/Config/Base64.antt =====
-- common/encoding/encryption.go: EncodeBase64 and DecodeBase64, with the standard encoding of Go's
-- encoding/base64.
use nacos_sdk_go.Common.{
  ℕ, suc, ◌+◌, ◌-◌, ◌*◌, ◌/◌, ◌%◌, ◌<◌, ◌≡◌, refl, Bool, true, false, ◌&&◌, ◌||◌, not, [], ◌∷◌,
  Option, none, some, arith, Bytes, IsBytes, All, ltb, leb, nat_beq, if◌then◌else◌, filter_by,
  filter_by-All', length, ap, ◌∙◌,
}

-- The digit of a number below 64.
unfoldable pub base64_digit : ℕ → ℕ
base64_digit n =
    if ltb n 26
    then n + 65
    else if ltb n 52
    then n + 71
    else if ltb n 62
    then n - 4
    else if nat_beq n 62
    then b'+'
    else b'/'

unfoldable pub base64_value : ℕ → Option ℕ
base64_value c =
    if leb 65 c && leb c 90
    then some (c - 65)
    else if leb 97 c && leb c 122
    then some (c - 71)
    else if leb 48 c && leb c 57
    then some (c + 4)
    else if nat_beq c b'+'
    then some 62
    else if nat_beq c b'/'
    then some 63
    else none

unfoldable pub encode_base64 : Bytes → Bytes
unfolding base64_digit
encode_base64 [] = []
encode_base64 (a ∷ []) = base64_digit (a / 4) ∷ base64_digit (a % 4 * 16) ∷ b'=' ∷ b'=' ∷ []
encode_base64 (a ∷ b ∷ []) =
    base64_digit (a / 4)
    ∷ base64_digit (a % 4 * 16 + b / 16)
    ∷ base64_digit (b % 16 * 4)
    ∷ b'='
    ∷ []
encode_base64 (a ∷ b ∷ c ∷ rest) =
    base64_digit (a / 4)
    ∷ base64_digit (a % 4 * 16 + b / 16)
    ∷ base64_digit (b % 16 * 4 + c / 64)
    ∷ base64_digit (c % 64)
    ∷ encode_base64 rest

abbrev pub is_newline : ℕ → Bool
is_newline c = nat_beq c 10 || nat_beq c 13

-- The bytes of the last group, with two, one and no padding.
unfoldable pub one_byte : Option ℕ → Option ℕ → Option Bytes
one_byte (some p) (some q) = some ((p * 4 + q / 16) ∷ [])
one_byte _ _ = none

unfoldable pub two_bytes : Option ℕ → Option ℕ → Option ℕ → Option Bytes
two_bytes (some p) (some q) (some r) = some ((p * 4 + q / 16) ∷ (q % 16 * 16 + r / 4) ∷ [])
two_bytes _ _ _ = none

unfoldable pub three_bytes : Option ℕ → Option ℕ → Option ℕ → Option ℕ → Option Bytes → Option Bytes
three_bytes (some p) (some q) (some r) (some s) (some rest) =
    some ((p * 4 + q / 16) ∷ (q % 16 * 16 + r / 4) ∷ (r % 4 * 64 + s) ∷ rest)
three_bytes _ _ _ _ _ = none

-- A group that ends in padding is the last one.
unfoldable pub padded : ℕ → ℕ → ℕ → Bytes → Option Bytes
unfolding one_byte two_bytes base64_value
padded p q r [] =
    if nat_beq r b'='
    then one_byte (base64_value p) (base64_value q)
    else two_bytes (base64_value p) (base64_value q) (base64_value r)
padded p q r (c ∷ rest) = none

unfoldable pub decode_groups : Bytes → Option Bytes
unfolding padded three_bytes base64_value
decode_groups [] = some []
decode_groups (p ∷ []) = none
decode_groups (p ∷ q ∷ []) = none
decode_groups (p ∷ q ∷ r ∷ []) = none
decode_groups (p ∷ q ∷ r ∷ s ∷ rest) =
    let others = decode_groups rest in
    if nat_beq s b'='
    then padded p q r rest
    else three_bytes (base64_value p) (base64_value q) (base64_value r) (base64_value s) others

-- `DecodeBase64`; newlines are skipped, and no result is an error.
unfoldable pub decode_base64 : Bytes → Option Bytes
unfolding decode_groups
decode_base64 text = decode_groups (filter_by (λ c. not (is_newline c)) text)

value_of_digit : (n : ℕ) → n < 64 → base64_value (base64_digit n) ≡ some n
unfolding base64_value base64_digit
value_of_digit n h = ground arith

digit_not_padding : (n : ℕ) → n < 64 → nat_beq (base64_digit n) b'=' ≡ false
unfolding base64_digit
digit_not_padding n h = ground arith

digit_no_newline : (n : ℕ) → n < 64 → not (is_newline (base64_digit n)) ≡ true
unfolding base64_digit
digit_no_newline n h = ground arith

decode_full :
    (p q r s : ℕ) (rest : Bytes)
    → p < 64
    → q < 64
    → r < 64
    → s < 64
    → decode_groups (base64_digit p ∷ base64_digit q ∷ base64_digit r ∷ base64_digit s ∷ rest)
      ≡ three_bytes (some p) (some q) (some r) (some s) (decode_groups rest)
unfolding decode_groups
decode_full p q r s rest hp hq hr hs =
    rw
      (
        digit_not_padding s hs,
        value_of_digit p hp,
        value_of_digit q hq,
        value_of_digit r hr,
        value_of_digit s hs,
      )
      refl

decode_one :
    (p q : ℕ)
    → p < 64
    → q < 64
    → decode_groups (base64_digit p ∷ base64_digit q ∷ b'=' ∷ b'=' ∷ [])
      ≡ one_byte (some p) (some q)
unfolding decode_groups padded
decode_one p q hp hq = rw (value_of_digit p hp, value_of_digit q hq) refl

decode_two :
    (p q r : ℕ)
    → p < 64
    → q < 64
    → r < 64
    → decode_groups (base64_digit p ∷ base64_digit q ∷ base64_digit r ∷ b'=' ∷ [])
      ≡ two_bytes (some p) (some q) (some r)
unfolding decode_groups padded
decode_two p q r hp hq hr =
    rw (digit_not_padding r hr, value_of_digit p hp, value_of_digit q hq, value_of_digit r hr) refl

decode_none : decode_groups [] ≡ some []
unfolding decode_groups
decode_none = refl

decode_groups-encode : (s : Bytes) → IsBytes s → decode_groups (encode_base64 s) ≡ some s
unfolding encode_base64 one_byte two_bytes three_bytes
decode_groups-encode [] h = decode_none
decode_groups-encode (a ∷ []) h =
    decode_one (a / 4) (a % 4 * 16) (omega (arith, h.0)) (omega arith) ∙ ground (arith, h.0)
decode_groups-encode (a ∷ b ∷ []) h =
    decode_two (a / 4) (a % 4 * 16 + b / 16) (b % 16 * 4) (omega (arith, h.0))
      (omega (arith, h.1.0)) (omega arith)
    ∙ ground (arith, h.0, h.1.0)
decode_groups-encode (a ∷ b ∷ c ∷ rest) h =
    decode_full (a / 4) (a % 4 * 16 + b / 16) (b % 16 * 4 + c / 64) (c % 64) (encode_base64 rest)
      (omega (arith, h.0)) (omega (arith, h.1.0)) (omega (arith, h.1.1.0)) (omega arith)
    ∙ ground (arith, h.0, h.1.0, h.1.1.0, decode_groups-encode rest h.1.1.1)

abbrev NoNewlines : Bytes → Type 0
NoNewlines = All (λ c. not (is_newline c) ≡ true)

encode-NoNewlines : (s : Bytes) → IsBytes s → NoNewlines (encode_base64 s)
unfolding encode_base64
encode-NoNewlines [] h = tt
encode-NoNewlines (a ∷ []) h = (
  digit_no_newline (a / 4) (omega (arith, h.0)),
  (digit_no_newline (a % 4 * 16) (omega arith), (refl, (refl, tt))),
)
encode-NoNewlines (a ∷ b ∷ []) h = (
  digit_no_newline (a / 4) (omega (arith, h.0)),
  (
    digit_no_newline (a % 4 * 16 + b / 16) (omega (arith, h.1.0)),
    (digit_no_newline (b % 16 * 4) (omega arith), (refl, tt)),
  ),
)
encode-NoNewlines (a ∷ b ∷ c ∷ rest) h = (
  digit_no_newline (a / 4) (omega (arith, h.0)),
  (
    digit_no_newline (a % 4 * 16 + b / 16) (omega (arith, h.1.0)),
    (
      digit_no_newline (b % 16 * 4 + c / 64) (omega (arith, h.1.1.0)),
      (digit_no_newline (c % 64) (omega arith), encode-NoNewlines rest h.1.1.1),
    ),
  ),
)

pub decode_base64-encode : (s : Bytes) → IsBytes s → decode_base64 (encode_base64 s) ≡ some s
unfolding decode_base64
decode_base64-encode s h =
    ap decode_groups
      (filter_by-All' (λ c. not (is_newline c)) (encode_base64 s) (encode-NoNewlines s h))
    ∙ decode_groups-encode s h

suc_not_zero : (n : ℕ) → nat_beq (suc n) 0 ≡ false
suc_not_zero n = ground arith

pub length-encode_base64 : (c : ℕ) (s : Bytes) → nat_beq (length (encode_base64 (c ∷ s))) 0 ≡ false
unfolding encode_base64
length-encode_base64 a [] = refl
length-encode_base64 a (b ∷ []) = refl
length-encode_base64 a (b ∷ c ∷ rest) = suc_not_zero _
